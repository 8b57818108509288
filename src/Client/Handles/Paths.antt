-- ===== src/Client/Handles/Paths.antt =====
-- The parsing of a node handle, and the file that it names.
use mathlib.Core.Option.{some-injective}
use corsa_bind.Common.{
  ℕ, ◌^◌, ◌≤◌, nat_eq, ◌≡◌, refl, arith, Bool, true, false, ◌&&◌, ◌||◌, List, [], ◌∷◌, ◌++◌,
  if◌then◌else◌, ap, ◌∙◌, sym, some, none, ◌and_then◌, and_then-eq-some, ltb,
}
use corsa_bind.TypeText.Chars.{Chars, is_empty}
use corsa_bind.TypeText.Kinds.{is_digits, value_of}
use corsa_bind.Client.Handles.{
  ParsedNodeHandle, split_dots, splitn_dots, join_dots, parse_uint, parse_fields, parse_parts,
  parse_handle, drop_plus, is_parsed, none_if_empty, path_of, path_of_parts, declaring_path,
}
use corsa_bind.Client.Handles.Pieces.{
  regroup, splitn_dots-regroup, join_dots-split_dots, HasNoDot, splitn_dots-part, split_dots-part,
}

fits_wider :
    (d : Bool) (v n : ℕ)
    → (if d && ltb v (2 ^ 16) then some v else none) ≡ some n
    → is_parsed (if d && ltb v (2 ^ 32) then some v else none) ≡ true
fits_wider true v n h = ground arith
fits_wider false v n h = cc

-- A text that is read in 16 bits is read in 32 bits.
parse_uint_wider :
    (text : Chars) (n : ℕ) → parse_uint 16 text ≡ some n → is_parsed (parse_uint 32 text) ≡ true
unfolding parse_uint
parse_uint_wider text n h =
    fits_wider (is_digits (drop_plus text)) (value_of 0 (drop_plus text)) n h

checked-path :
    (path : Chars) (reversed : Bool) (q p : ParsedNodeHandle)
    → q.path ≡ path
    → (if is_empty path || reversed then none else some q) ≡ some p
    → none_if_empty path ≡ some p.path
checked-path [] reversed q p e h = cc
checked-path (c ∷ path) true q p e h = cc
checked-path (c ∷ path) false q p e h =
    let same : q ≡ p = some-injective _ _ h in
    ap some (sym e ∙ ap (λ (r : ParsedNodeHandle). r.path) same)

parse_fields-path_of :
    (first second third path : Chars) (other : Chars) (rest : List Chars) (p : ParsedNodeHandle)
    → join_dots (other ∷ rest) ≡ path
    → parse_fields first second third path ≡ some p
    → path_of first second third (other ∷ rest) ≡ some p.path
unfolding parse_fields path_of
parse_fields-path_of first second third path other rest p j h =
    let (pos, a, h1) = and_then-eq-some (parse_uint 32 first) _ h in
    let (end, b, h2) = and_then-eq-some (parse_uint 32 second) _ h1 in
    let (kind, c, h3) = and_then-eq-some (parse_uint 16 third) _ h2 in
    let wide = parse_uint_wider third kind c in
    let named : none_if_empty path ≡ some p.path =
      checked-path path (ltb end pos) (record { pos = pos; end = end; kind = kind; path = path }) p
        refl h3 in
    rw (path_of, a, b, wide, j) named

parse_parts-path_of_parts :
    (parts : List Chars) (p : ParsedNodeHandle)
    → parse_parts (regroup 4 parts) ≡ some p
    → path_of_parts parts ≡ some p.path
parse_parts-path_of_parts [] p h = cc
parse_parts-path_of_parts (a ∷ []) p h = cc
parse_parts-path_of_parts (a ∷ b ∷ []) p h = cc
parse_parts-path_of_parts (a ∷ b ∷ c ∷ []) p h = cc
parse_parts-path_of_parts (a ∷ b ∷ c ∷ d ∷ rest) p h =
    parse_fields-path_of a b c (join_dots (d ∷ rest)) d rest p refl h

-- A handle that is parsed names, for declaring_path, the file of the parsed handle: the two readings of a
-- handle agree, also where the path has dots.
pub parse_handle-declaring_path :
    (handle : Chars) (p : ParsedNodeHandle)
    → parse_handle handle ≡ some p
    → declaring_path handle ≡ some p.path
unfolding parse_handle declaring_path
parse_handle-declaring_path handle p h =
    parse_parts-path_of_parts (split_dots handle) p
      (ap parse_parts (sym (splitn_dots-regroup 4 handle)) ∙ h)

-- A handle that is written in its four parts, the three numbers in any spelling without a dot that is
-- read in their width, is parsed to them, if its range is not inverted and its path is not empty.
pub parse_handle-parts :
    (first second third path : Chars) (pos end kind : ℕ)
    → HasNoDot first
    → HasNoDot second
    → HasNoDot third
    → parse_uint 32 first ≡ some pos
    → parse_uint 32 second ≡ some end
    → parse_uint 16 third ≡ some kind
    → is_empty path ≡ false
    → pos ≤ end
    → parse_handle (first ++ b'.' ∷ (second ++ b'.' ∷ (third ++ b'.' ∷ path)))
      ≡ some (record { pos = pos; end = end; kind = kind; path = path })
unfolding parse_handle parse_fields splitn_dots
parse_handle-parts first second third path pos end kind d1 d2 d3 a b c p le =
    let cut : splitn_dots 4 (first ++ b'.' ∷ (second ++ b'.' ∷ (third ++ b'.' ∷ path)))
        ≡ first ∷ second ∷ third ∷ path ∷ [] =
      splitn_dots-part 2 first (second ++ b'.' ∷ (third ++ b'.' ∷ path)) d1
      ∙ ap (λ ps. first ∷ ps)
          (splitn_dots-part 1 second (third ++ b'.' ∷ path) d2
            ∙ ap (λ ps. second ∷ ps) (splitn_dots-part 0 third path d3)) in
    let forward : ltb end pos ≡ false = ground arith in
    ap parse_parts cut ∙ rw (a, b, c, p, forward, ◌and_then◌) refl

-- A compact handle, whose third part is no number, names what stands behind its second dot.
pub declaring_path-compact :
    (id kind path : Chars) (n k : ℕ) (part : Chars) (parts : List Chars)
    → HasNoDot id
    → HasNoDot kind
    → parse_uint 32 id ≡ some n
    → parse_uint 32 kind ≡ some k
    → split_dots path ≡ part ∷ parts
    → parse_uint 32 part ≡ none
    → is_empty path ≡ false
    → declaring_path (id ++ b'.' ∷ (kind ++ b'.' ∷ path)) ≡ some path
unfolding declaring_path path_of
declaring_path-compact id kind path n k part parts d1 d2 a b cut c p =
    let all : split_dots (id ++ b'.' ∷ (kind ++ b'.' ∷ path)) ≡ id ∷ kind ∷ part ∷ parts =
      split_dots-part id (kind ++ b'.' ∷ path) d1
      ∙ ap (λ ps. id ∷ ps) (split_dots-part kind path d2 ∙ ap (λ ps. kind ∷ ps) cut) in
    let whole : join_dots (part ∷ parts) ≡ path =
      ap join_dots (sym cut) ∙ join_dots-split_dots path in
    ap path_of_parts all ∙ rw (a, b, c, whole, p) refl
