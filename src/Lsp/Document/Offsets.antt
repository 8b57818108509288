-- ===== src/Lsp/Document/Offsets.antt =====
-- `byte_offset` finds every position of a text, and what it finds is the position asked for.
use corsa_bind.Common.{
  ℕ, ◌+◌, ◌^◌, ◌<◌, [], ◌∷◌, ◌++◌, ◌==◌, nat_eq, ◌≡◌, refl, sym, ap, ◌∙◌, arith, Bool-cases, inl,
  inr,
}
use corsa_bind.Core.Error.{ok}
use corsa_bind.Lsp.Document.{
  Chars, len_utf8, len_utf16, byte_len, Position, offset_loop, byte_offset,
}
use corsa_bind.Lsp.Document.Positions.{
  position_from, position_of, position_from-line_le, position_from-character_le, Tracks,
  offset_loop-here, offset_loop-below, offset_loop-on, offset_loop-off,
}
use native.Mathlib.Decide.{dec_lt}
use corsa_bind.Lsp.Document.Cuts.{offset_loop_sound}

offset_loop_complete :
    (position : Position) (p s : Chars) (l c column index : ℕ)
    → Tracks position l c column p
    → l + byte_len (p ++ s) < 2 ^ 32
    → c + byte_len (p ++ s) < 2 ^ 32
    → offset_loop position (p ++ s) l column index ≡ ok (index + byte_len p)
offset_loop_complete position [] s l c column index t a b =
    offset_loop-here position s l column index t.line_is
      (t.character_is ∙ sym (t.column_is (sym t.line_is)))
    ∙ ap ok (omega arith)
offset_loop_complete position (ch ∷ p) s l c column index t a b = elim (Bool-cases (ch == b'\n')) [
  | inl n ↦
      let at : position.line ≡ (position_from (l + 1) 0 p).line = ground (arith, t.line_is, n) in
      let lt : l < position.line = omega (arith, position_from-line_le (l + 1) 0 p) in
      offset_loop-below position ch (p ++ s) l column index n lt (ground arith)
      ∙ offset_loop_complete position p s (l + 1) 0 0 (index + len_utf8 ch)
          (record {
            line_is = at;
            character_is = ground (arith, t.character_is, n);
            column_is = λ e. refl;
          })
          (ground arith) (ground arith)
      ∙ ap ok (omega arith)
  | inr n ↦
      let at : position.line ≡ (position_from l (c + len_utf16 ch) p).line =
        ground (arith, t.line_is, n) in
      let to : position.character ≡ (position_from l (c + len_utf16 ch) p).character =
        ground (arith, t.character_is, n) in
      elim (dec_lt l position.line) [
        | yes lt ↦
            offset_loop-off position ch (p ++ s) l column index n lt
            ∙ offset_loop_complete position p s l (c + len_utf16 ch) column (index + len_utf8 ch)
                (record { line_is = at; character_is = to; column_is = λ e. absurd (omega arith) })
                (ground arith) (ground arith)
            ∙ ap ok (omega arith)
        | no ge ↦
            let same : position.line ≡ l =
              omega (arith, position_from-line_le l (c + len_utf16 ch) p) in
            let true_column : column ≡ c = t.column_is (sym same) in
            let le = position_from-character_le l (c + len_utf16 ch) p (sym at ∙ same) in
            offset_loop-on position ch (p ++ s) l column index n same (omega arith) (ground arith)
            ∙ offset_loop_complete position p s l (c + len_utf16 ch) (column + len_utf16 ch)
                (index + len_utf8 ch)
                (record { line_is = at; character_is = to; column_is = λ e. omega arith })
                (ground arith) (ground arith)
            ∙ ap ok (omega arith)
      ]
]

-- For a text of less than 2 ^ 32 bytes: at every cut of it, the offset of the cut's position is the
-- number of bytes before the cut.
pub byte_offset-position_of :
    (p s : Chars)
    → byte_len (p ++ s) < 2 ^ 32
    → byte_offset (p ++ s) (position_of p) ≡ ok (byte_len p)
byte_offset-position_of p s small =
    offset_loop_complete (position_of p) p s 0 0 0 0
      (record { line_is = refl; character_is = refl; column_is = λ e. refl }) (omega arith)
      (omega arith)
    ∙ ap ok (omega arith)

-- For a text of less than 2 ^ 32 bytes, whatever offset is found for a position lies at a cut of the
-- text, which is at that position.
pub byte_offset-eq-ok :
    (text : Chars) (position : Position) (i : ℕ)
    → byte_len text < 2 ^ 32
    → byte_offset text position ≡ ok i
    → (p : Chars) × (s : Chars) × (text ≡ p ++ s) × (position_of p ≡ position) × (byte_len p ≡ i)
byte_offset-eq-ok text position i small h =
    let f =
      offset_loop_sound position text 0 0 0 0 i (λ e. refl) (omega arith) (omega arith)
        (omega arith) h in
    (f.before, f.after, f.cut, f.there, omega (arith, f.at_index))
