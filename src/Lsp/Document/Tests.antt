-- ===== src/Lsp/Document/Tests.antt =====
-- Edits of a text of two lines.
use corsa_bind.Common.{some, [], ◌∷◌, ◌++◌, codes, ◌≡◌, refl, arith}
use corsa_bind.Core.Error.{ok, err}
use corsa_bind.Lsp.Document.{
  Chars, VirtualChange, VirtualDocument, replace, splice, new, out_of_bounds, byte_offset,
  offset_loop, apply_change, apply_all, apply_changes,
}
use corsa_bind.Lsp.Document.Standard.{
  lsp_position, byte_offset-lsp_position, apply_change-lsp_position,
}
use corsa_bind.Lsp.Document.Edits.{apply_changes_partial}

-- A character of four bytes and two UTF-16 units stands in the second line.
abbrev before : Chars
before = codes "ab\n" ++ 0x1f600 ∷ []

abbrev behind : Chars
behind = codes "cd"

-- The first line ends in two characters.
abbrev returned : Chars
returned = codes "ab\r\n" ++ 0x1f600 ∷ []

byte_offset-lsp_position_example : byte_offset (returned ++ behind) (lsp_position returned) ≡ ok 8
byte_offset-lsp_position_example = byte_offset-lsp_position returned behind (omega arith) refl

-- The standard ends a line at a `\r` alone, and places the `b` at the start of the second line; the source
-- finds nothing there.
lone_return :
    (lsp_position (codes "a\r") ≡ record { line = 1; character = 0 })
    × (byte_offset (codes "a\rb") (record { line = 1; character = 0 }) ≡ err out_of_bounds)
unfolding offset_loop
lone_return = (refl, refl)

found : byte_offset (before ++ behind) (record { line = 1; character = 2 }) ≡ ok 7
unfolding offset_loop
found = refl

apply_change-lsp_position_example :
    apply_change
      (codes "a" ++ codes "b\r\n" ++ codes "c")
      (splice (lsp_position (codes "a"), lsp_position (codes "a" ++ codes "b\r\n")) (codes "xyz"))
    ≡ some (ok (codes "a" ++ codes "xyz" ++ codes "c"))
apply_change-lsp_position_example =
    apply_change-lsp_position (codes "a") (codes "b\r\n") (codes "c") (codes "xyz") (omega arith)
      refl refl

-- It ends in the middle of the character.
abbrev inside : VirtualChange
inside = splice (record { line = 1; character = 0 }, record { line = 1; character = 1 }) (codes "x")

abbrev demo : VirtualDocument
demo = new "untitled:/demo.ts" "typescript" (codes "one")

abbrev beyond : VirtualChange
beyond = splice (record { line = 5; character = 0 }, record { line = 5; character = 0 }) (codes "x")

first_applies : apply_all (codes "one") (replace (codes "two") ∷ []) ≡ some (codes "two", ok tt)
unfolding apply_all apply_change
first_applies = refl

second_fails : apply_change (codes "two") beyond ≡ some (err out_of_bounds)
unfolding apply_change offset_loop
second_fails = refl

apply_changes_partial_example :
    apply_changes demo (replace (codes "two") ∷ beyond ∷ [])
    ≡ some (record demo { text = codes "two" }, err out_of_bounds)
apply_changes_partial_example =
    apply_changes_partial demo (replace (codes "two") ∷ []) [] beyond (codes "two") out_of_bounds
      first_applies second_fails
