-- ===== src/TypeText/Parse/Total.antt =====
-- Parsing of unsafe_flow.rs ends: each level of nesting has a shorter text.
use corsa_bind.Common.{
  ℕ, zero, suc, ◌<◌, nat_eq, ◌≡◌, refl, arith, Option, some, List, [], ◌∷◌, length, All, ◌and_then◌,
}
use corsa_bind.TypeText.Chars.{Chars}
use corsa_bind.TypeText.Parse.Shorter.{
  strip_wrapping_parens-ends, ShorterThan, IsShorter, shape_of-IsShorter,
}
use corsa_bind.TypeText.Parse.{
  SimpleType, Types, nil, cons, Shape, union_of, intersection_of, array_of, tuple_of, generic_of,
  atom_of, shape_of, map_types, parse_shape, parse_loop, parse_type_text, parse_atom, union,
  intersection, array, tuple, generic,
}

abbrev Parses : Option SimpleType → Type 0
Parses o = (t : SimpleType) × (o ≡ some t)

module _ (f : Chars → Option SimpleType) (n : ℕ)
    (parses : (part : Chars) → length part < n → Parses (f part)) where
  map_types-some :
      (parts : List Chars)
      → All (ShorterThan n) parts
      → (ts : Types) × (map_types f parts ≡ some ts)
  map_types-some [] h = (nil, refl)
  map_types-some (part ∷ parts) h =
      let (t, e) = parses part h.0 in
      let (ts, es) = map_types-some parts h.1 in (cons t ts, rw (e, ◌and_then◌, es) refl)

  parse_shape-Parses : (shape : Shape) → IsShorter n shape → Parses (parse_shape f shape)
  parse_shape-Parses (union_of parts) h =
      let (ts, e) = map_types-some parts h in (union ts, rw e refl)
  parse_shape-Parses (intersection_of parts) h =
      let (ts, e) = map_types-some parts h in (intersection ts, rw e refl)
  parse_shape-Parses (array_of item) h = let (t, e) = parses item h in (array t, rw e refl)
  parse_shape-Parses (tuple_of parts) h =
      let (ts, e) = map_types-some parts h in (tuple ts, rw e refl)
  parse_shape-Parses (generic_of base args) h =
      let (ts, e) = map_types-some args h in (generic base ts, rw e refl)
  parse_shape-Parses (atom_of text) h = (parse_atom text, refl)

parse_loop-Parses : (fuel : ℕ) (text : Chars) → length text < fuel → Parses (parse_loop fuel text)
unfolding parse_loop
parse_loop-Parses zero text lt = absurd (omega arith)
parse_loop-Parses (suc fuel) text lt =
    let (body, e, le, n) = strip_wrapping_parens-ends text in
    let (t, p) =
      parse_shape-Parses (parse_loop fuel) (length body)
        (λ part short. parse_loop-Parses fuel part (omega arith)) (shape_of body)
        (shape_of-IsShorter body) in
    (t, rw (parse_loop, e, ◌and_then◌) p)

-- Parsing of a type's text ends with a type, whatever the text.
pub parse_type_text-Parses : (text : Chars) → (t : SimpleType) × (parse_type_text text ≡ some t)
unfolding parse_type_text
parse_type_text-Parses text = parse_loop-Parses (suc (length text)) text (omega arith)
