-- ===== src/Lsp/Document/Edits.antt =====
-- Edits: a splice replaces the text between two positions, no edit panics, and what a batch that
-- fails leaves behind.
use corsa_bind.Common.{
  ℕ, ◌+◌, ◌-◌, ◌^◌, ◌≤◌, ◌<◌, some, List, [], ◌∷◌, ◌++◌, append_assoc, ltb, nat_eq, ◌≡◌, refl, sym,
  ap, ◌∙◌, arith, Bool-cases, Option-cases, inl, inr,
}
use corsa_bind.Core.Error.{CorsaError, protocol, Result, ok, err, Result-cases}
use corsa_bind.Core.Text.{literal}
use corsa_bind.Lsp.Document.{
  Chars, len_utf8, byte_len, Position, VirtualChange, VirtualDocument, splice, byte_offset,
  split_at_byte, replace_range, apply_change, apply_all, apply_changes,
}
use corsa_bind.Lsp.Document.Positions.{position_of}
use corsa_bind.Lsp.Document.Offsets.{byte_offset-position_of, byte_offset-eq-ok}

pub byte_len-append : (p s : Chars) → byte_len (p ++ s) ≡ byte_len p + byte_len s
byte_len-append [] s = omega arith
byte_len-append (ch ∷ p) s = omega (arith, byte_len-append p s)

cancel : (ch : ℕ) (p : Chars) → len_utf8 ch + byte_len p - len_utf8 ch ≡ byte_len p
cancel ch p = omega arith

split_at_byte-byte_len : (p s : Chars) → split_at_byte (byte_len p) (p ++ s) ≡ some (p, s)
unfolding split_at_byte
split_at_byte-byte_len [] [] = refl
split_at_byte-byte_len [] (ch ∷ s) = refl
split_at_byte-byte_len (ch ∷ p) s =
    ground
      (arith, ap (λ (n : ℕ). split_at_byte n (p ++ s)) (cancel ch p) ∙ split_at_byte-byte_len p s)

replace_range-cut :
    (a b c with : Chars) (start end : ℕ)
    → byte_len a ≡ start
    → byte_len (a ++ b) ≡ end
    → replace_range start end with (a ++ (b ++ c)) ≡ some (a ++ with ++ c)
unfolding replace_range
replace_range-cut a b c with start end p q =
    let gap : byte_len b ≡ end - start = omega (arith, byte_len-append a b) in
    let first : split_at_byte start (a ++ (b ++ c)) ≡ some (a, b ++ c) =
      ap (λ (n : ℕ). split_at_byte n (a ++ (b ++ c))) (sym p) ∙ split_at_byte-byte_len a (b ++ c) in
    let second : split_at_byte (end - start) (b ++ c) ≡ some (b, c) =
      ap (λ (n : ℕ). split_at_byte n (b ++ c)) (sym gap) ∙ split_at_byte-byte_len b c in
    ground (arith, first, second)

apply_change_at :
    (text text' : Chars) (change : VirtualChange) (from to : Position) (start end : ℕ)
    → change.range ≡ some (from, to)
    → byte_offset text from ≡ ok start
    → byte_offset text to ≡ ok end
    → start ≤ end
    → replace_range start end change.text text ≡ some text'
    → apply_change text change ≡ some (ok text')
unfolding apply_change
apply_change_at text text' change from to start end g f t le r = ground arith

-- For a text of less than 2 ^ 32 bytes, a splice between the positions of two cuts of it replaces
-- exactly the text between the cuts.
pub apply_change-splice :
    (a b c new : Chars)
    → byte_len (a ++ b ++ c) < 2 ^ 32
    → apply_change (a ++ b ++ c) (splice (position_of a, position_of (a ++ b)) new)
      ≡ some (ok (a ++ new ++ c))
apply_change-splice a b c new small =
    let assoc : a ++ b ++ c ≡ a ++ (b ++ c) = append_assoc a b c in
    let text : Chars = a ++ (b ++ c) in
    let second : byte_offset text (position_of (a ++ b)) ≡ ok (byte_len (a ++ b)) =
      ap (λ (t : Chars). byte_offset t (position_of (a ++ b))) (sym assoc)
      ∙ byte_offset-position_of (a ++ b) c small in
    ap (λ (t : Chars). apply_change t (splice (position_of a, position_of (a ++ b)) new)) assoc
    ∙ apply_change_at text (a ++ new ++ c) (splice (position_of a, position_of (a ++ b)) new)
        (position_of a) (position_of (a ++ b)) (byte_len a) (byte_len (a ++ b)) refl
        (byte_offset-position_of a (b ++ c) (omega (arith, ap byte_len assoc))) second
        (omega (arith, byte_len-append a b))
        (replace_range-cut a b c new (byte_len a) (byte_len (a ++ b)) refl refl)

-- Two cuts of one text, the first not behind the second.
between :
    (a r b s : Chars)
    → a ++ r ≡ b ++ s
    → byte_len a ≤ byte_len b
    → (m : Chars) × (b ≡ a ++ m) × (r ≡ m ++ s)
between [] r b s e le = (b, refl, e)
between (ch ∷ a) r [] s e le = absurd (ground arith)
between (x ∷ a) r (y ∷ b) s e le =
    let q : x ≡ y = cc in
    let (m, p, t) = between a r b s (cc) (omega (arith, ap len_utf8 q)) in (m, cc, t)

-- Two offsets that were found, in order, bound a range that can be replaced.
replace_range_found :
    (text new : Chars) (from to : Position) (start end : ℕ)
    → byte_len text < 2 ^ 32
    → byte_offset text from ≡ ok start
    → byte_offset text to ≡ ok end
    → start ≤ end
    → (text' : Chars) × (replace_range start end new text ≡ some text')
replace_range_found text new from to start end small f t le =
    let (a, r, p, _, x) = byte_offset-eq-ok text from start small f in
    let (b, s, q, _, y) = byte_offset-eq-ok text to end small t in
    let (m, u, v) = between a r b s (sym p ∙ q) (omega arith) in
    (
      a ++ new ++ s,
      ap (replace_range start end new) (p ∙ ap (◌++◌ a) v)
          ∙ replace_range-cut a m s new start end x (ap byte_len (sym u) ∙ y),
    )

-- No edit of a text of less than 2 ^ 32 bytes panics: it gives a text or an error.
pub apply_change_total :
    (text : Chars) (change : VirtualChange)
    → byte_len text < 2 ^ 32
    → (r : Result Chars) × (apply_change text change ≡ some r)
unfolding apply_change
apply_change_total text change small = elim (Option-cases change.range) [
  | inl g ↦ (ok change.text, ground (arith, g))
  | inr ((from, to), g) ↦ elim (Result-cases (byte_offset text from)) [
    | inr (e, f) ↦ (err e, ground (arith, g, f))
    | inl (start, f) ↦ elim (Result-cases (byte_offset text to)) [
      | inr (e, t) ↦ (err e, ground (arith, g, f, t))
      | inl (end, t) ↦ elim (Bool-cases (ltb end start)) [
        | inl back ↦ (
          err (protocol (literal "virtual edit has an inverted range")),
          ground (arith, g, f, t, back),
        )
        | inr order ↦
            let (text', r) =
              replace_range_found text change.text from to start end small f t (ground arith) in
            (ok text', apply_change_at text text' change from to start end g f t (ground arith) r)
      ]
    ]
  ]
]

apply_all_partial :
    (text : Chars) (before after : List VirtualChange) (bad : VirtualChange) (text' : Chars)
    (e : CorsaError)
    → apply_all text before ≡ some (text', ok tt)
    → apply_change text' bad ≡ some (err e)
    → apply_all text (before ++ bad ∷ after) ≡ some (text', err e)
unfolding apply_all
apply_all_partial text [] after bad text' e run fails = ground arith
apply_all_partial text (change ∷ before) after bad text' e run fails =
    elim (Option-cases (apply_change text change)) [
      | inl n ↦ ground (arith, n)
      | inr (r, a) ↦ elim (Result-cases r) [
        | inr (x, b) ↦ ground (arith, a, b)
        | inl (t, b) ↦ ground (arith, a, b, apply_all_partial t before after bad text' e)
      ]
    ]

apply_changes_failed :
    (d : VirtualDocument) (changes : List VirtualChange) (text' : Chars) (e : CorsaError)
    → apply_all d.text changes ≡ some (text', err e)
    → apply_changes d changes ≡ some (record d { text = text' }, err e)
unfolding apply_changes apply_all
apply_changes_failed d [] text' e h = absurd (cc)
apply_changes_failed d (change ∷ changes) text' e h = rw (h, apply_changes) refl

-- A batch in which a change fails after others were applied is not undone: the document keeps the
-- text that the earlier changes made, at its old version, and the caller gets the error.
pub apply_changes_partial :
    (d : VirtualDocument) (before after : List VirtualChange) (bad : VirtualChange) (text' : Chars)
    (e : CorsaError)
    → apply_all d.text before ≡ some (text', ok tt)
    → apply_change text' bad ≡ some (err e)
    → apply_changes d (before ++ bad ∷ after) ≡ some (record d { text = text' }, err e)
apply_changes_partial d before after bad text' e run fails =
    apply_changes_failed d (before ++ bad ∷ after) text' e
      (apply_all_partial d.text before after bad text' e run fails)
