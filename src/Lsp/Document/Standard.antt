-- ===== src/Lsp/Document/Standard.antt =====
-- The positions of the LSP standard, in which a line ends at `\n`, at `\r\n` and at a `\r` that stands
-- alone, and what virtual_document.rs, which ends lines at `\n`, does at them.
use corsa_bind.Common.{
  ℕ, ◌+◌, ◌^◌, ◌<◌, Bool, true, false, not, ◌&&◌, some, [], ◌∷◌, ◌++◌, ◌==◌, nat_eq, if◌then◌else◌,
  ◌≡◌, refl, sym, ap, ◌∙◌, arith, Bool-cases, inl, inr,
}
use corsa_bind.Core.Error.{ok}
use corsa_bind.Lsp.Document.{
  Chars, Position, len_utf16, byte_len, byte_offset, splice, apply_change,
}
use corsa_bind.Lsp.Document.Positions.{position_from, position_of}
use corsa_bind.Lsp.Document.Offsets.{byte_offset-position_of}
use corsa_bind.Lsp.Document.Edits.{apply_change-splice}

abbrev pub begins_with_feed : Chars → Bool
begins_with_feed [] = false
begins_with_feed (ch ∷ text) = ch == b'\n'

-- The position behind a text that begins at a line and a column. The `\r` of a `\r\n` is a part of the
-- line end that the `\n` is counted as.
abbrev pub lsp_from : ℕ → ℕ → Chars → Position
lsp_from line column [] = record { line = line; character = column }
lsp_from line column (ch ∷ text) =
    let next_line = lsp_from (line + 1) 0 text in
    let same_place = lsp_from line column text in
    let on = lsp_from line (column + len_utf16 ch) text in
    if ch == b'\n'
    then next_line
    else if ch == b'\r'
    then (if begins_with_feed text then same_place else next_line)
    else on

abbrev pub lsp_position : Chars → Position
lsp_position = lsp_from 0 0

-- Whether a `\r` stands in the text that no `\n` follows.
abbrev pub has_lone_return : Chars → Bool
has_lone_return [] = false
has_lone_return (ch ∷ text) =
    let behind = has_lone_return text in
    if (ch == b'\r') && not (begins_with_feed text) then true else behind

position_from-feed :
    (l c d : ℕ) (text : Chars)
    → begins_with_feed text ≡ true
    → position_from l c text ≡ position_from l d text
position_from-feed l c d [] h = absurd (cc)
position_from-feed l c d (ch ∷ text) h = rw h refl

position_from-lsp_from :
    (l c : ℕ) (text : Chars)
    → has_lone_return text ≡ false
    → position_from l c text ≡ lsp_from l c text
position_from-lsp_from l c [] h = refl
position_from-lsp_from l c (ch ∷ text) h = elim (Bool-cases (ch == b'\n')) [
  | inl n ↦ rw n (position_from-lsp_from (l + 1) 0 text ground arith)
  | inr n ↦ elim (Bool-cases (ch == b'\r')) [
    | inl r ↦
        (let feed : begins_with_feed text ≡ true = ground arith in
          rw (n, r, feed)
            (position_from-feed l (c + len_utf16 ch) c text feed
              ∙ position_from-lsp_from l c text ground arith))
    | inr r ↦ rw (n, r) (position_from-lsp_from l (c + len_utf16 ch) text ground arith)
  ]
]

position_of-lsp_position :
    (text : Chars) → has_lone_return text ≡ false → position_of text ≡ lsp_position text
position_of-lsp_position text h = position_from-lsp_from 0 0 text h

-- For a text of less than 2 ^ 32 bytes: at every cut of it before which no `\r` stands without a `\n`
-- behind it, the offset of the cut's LSP position is the number of bytes before the cut.
pub byte_offset-lsp_position :
    (p s : Chars)
    → byte_len (p ++ s) < 2 ^ 32
    → has_lone_return p ≡ false
    → byte_offset (p ++ s) (lsp_position p) ≡ ok (byte_len p)
byte_offset-lsp_position p s small h =
    ap (byte_offset (p ++ s)) (sym (position_of-lsp_position p h))
    ∙ byte_offset-position_of p s small

-- For a text of less than 2 ^ 32 bytes, and two cuts of it before which no `\r` stands without a `\n`
-- behind it: a splice between the LSP positions of the cuts replaces exactly the text between them.
pub apply_change-lsp_position :
    (a b c new : Chars)
    → byte_len (a ++ b ++ c) < 2 ^ 32
    → has_lone_return a ≡ false
    → has_lone_return (a ++ b) ≡ false
    → apply_change (a ++ b ++ c) (splice (lsp_position a, lsp_position (a ++ b)) new)
      ≡ some (ok (a ++ new ++ c))
apply_change-lsp_position a b c new small h g =
    ap (λ from. apply_change (a ++ b ++ c) (splice (from, lsp_position (a ++ b)) new))
      (sym (position_of-lsp_position a h))
    ∙ ap (λ to. apply_change (a ++ b ++ c) (splice (position_of a, to) new))
        (sym (position_of-lsp_position (a ++ b) g))
    ∙ apply_change-splice a b c new small
