-- ===== src/Lsp/Document/Positions.antt =====
-- Positions and byte offsets name the same places.
use corsa_bind.Common.{
  ℕ, ◌+◌, ◌^◌, ◌≤◌, ◌<◌, true, false, [], ◌∷◌, ◌==◌, nat_eq, if◌then◌else◌, ◌≡◌, arith,
}
use corsa_bind.Core.Error.{ok}
use corsa_bind.Lsp.Document.{Chars, len_utf8, len_utf16, Position, offset_loop}

-- The position behind a text that begins at a line and a column.
abbrev pub position_from : ℕ → ℕ → Chars → Position
position_from line column [] = record { line = line; character = column }
position_from line column (ch ∷ text) =
    let below = position_from (line + 1) 0 text in
    let on = position_from line (column + len_utf16 ch) text in if ch == b'\n' then below else on

-- The position behind a text as the source counts: the number of its `\n`, and the number of
-- UTF-16 units behind the last of them.
abbrev pub position_of : Chars → Position
position_of = position_from 0 0

pub position_from-line_le : (l c : ℕ) (p : Chars) → l ≤ (position_from l c p).line
position_from-line_le l c [] = omega arith
position_from-line_le l c (ch ∷ p) =
    ground (arith, position_from-line_le (l + 1) 0 p, position_from-line_le l (c + len_utf16 ch) p)

pub position_from-character_le :
    (l c : ℕ) (p : Chars) → (position_from l c p).line ≡ l → c ≤ (position_from l c p).character
position_from-character_le l c [] e = omega arith
position_from-character_le l c (ch ∷ p) e =
    ground
      (arith, position_from-line_le (l + 1) 0 p, position_from-character_le l (c + len_utf16 ch) p)

-- The loop's column is the true one on the line of the position, which is all that it is read for.
pub record Tracks (position : Position) (l c column : ℕ) (p : Chars) : Type 0 where
  pub line_is : position.line ≡ (position_from l c p).line
  pub character_is : position.character ≡ (position_from l c p).character
  pub column_is : l ≡ position.line → column ≡ c

pub offset_loop-here :
    (position : Position) (text : Chars) (l column index : ℕ)
    → position.line ≡ l
    → position.character ≡ column
    → offset_loop position text l column index ≡ ok index
unfolding offset_loop
offset_loop-here position [] l column index a b = ground arith
offset_loop-here position (ch ∷ text) l column index a b = ground arith

module _ (position : Position) (ch : ℕ) (text : Chars) (l column index : ℕ) where
  pub offset_loop-below :
      (ch == b'\n') ≡ true
      → l < position.line
      → l + 1 < 2 ^ 32
      → offset_loop position (ch ∷ text) l column index
        ≡ offset_loop position text (l + 1) 0 (index + len_utf8 ch)
  unfolding offset_loop
  offset_loop-below n lt small = ground arith

  pub offset_loop-on :
      (ch == b'\n') ≡ false
      → position.line ≡ l
      → column + len_utf16 ch ≤ position.character
      → column + len_utf16 ch < 2 ^ 32
      → offset_loop position (ch ∷ text) l column index
        ≡ offset_loop position text l (column + len_utf16 ch) (index + len_utf8 ch)
  unfolding offset_loop
  offset_loop-on n e le small = ground arith

  pub offset_loop-off :
      (ch == b'\n') ≡ false
      → l < position.line
      → offset_loop position (ch ∷ text) l column index
        ≡ offset_loop position text l column (index + len_utf8 ch)
  unfolding offset_loop
  offset_loop-off n lt = ground arith
