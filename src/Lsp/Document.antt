-- ===== src/Lsp/Document.antt =====
-- src/core/corsa_lsp/src/lsp/virtual_document.rs: documents that are edited at positions in lines and UTF-16 units. A
-- text is the list of its code points; `u32` wraps at 32 bits. Parsing a URI is the URI library's.
pub mod Positions
pub mod Cuts
pub mod Offsets
pub mod Edits
pub mod Standard
pub mod Tests
use corsa_bind.Common.{
  ℕ, zero, suc, ◌+◌, ◌-◌, ◌%◌, ◌^◌, Bool, true, false, Option, none, some, List, [], ◌∷◌, ◌++◌,
  String, ltb, ◌==◌, ◌&&◌, nat_eq, if◌then◌else◌, map,
}
use corsa_bind.Core.Error.{CorsaError, protocol, Result, ok, err}
use corsa_bind.Core.Text.{literal}

abbrev pub Chars : Type 0
Chars = List ℕ

-- `char::len_utf8` and `char::len_utf16`
abbrev pub len_utf8 : ℕ → ℕ
len_utf8 ch = if ltb ch 0x80 then 1 else if ltb ch 0x800 then 2 else if ltb ch 0x10000 then 3 else 4

abbrev pub len_utf16 : ℕ → ℕ
len_utf16 ch = if ltb ch 0x10000 then 1 else 2

-- `str::len`
abbrev pub byte_len : Chars → ℕ
byte_len [] = 0
byte_len (ch ∷ text) = len_utf8 ch + byte_len text

pub record Position : Type 0 where
  pub line : ℕ
  pub character : ℕ

pub record VirtualChange : Type 0 where
  pub range : Option (Position × Position)
  pub range_length : Option ℕ
  pub text : Chars

pub record VirtualDocument : Type 0 where
  pub uri : String
  pub language_id : String
  pub version : ℕ
  pub text : Chars

abbrev pub replace : Chars → VirtualChange
replace text = record { range = none; range_length = none; text = text }

abbrev pub splice : Position × Position → Chars → VirtualChange
splice range text = record { range = some range; range_length = none; text = text }

abbrev pub new : String → String → Chars → VirtualDocument
new uri language_id text = record { uri = uri; language_id = language_id; version = 1; text = text }

abbrev pub out_of_bounds : CorsaError
out_of_bounds = protocol (literal "virtual edit is out of bounds")

-- The loop of `byte_offset`, at a line, a column and a byte index.
unfoldable pub offset_loop : Position → Chars → (line column index : ℕ) → Result ℕ
offset_loop position [] line column index =
    if line == position.line && column == position.character then ok index else err out_of_bounds
offset_loop position (ch ∷ text) line column index =
    let below = offset_loop position text ((line + 1) % 2 ^ 32) 0 (index + len_utf8 ch) in
    let wider = (column + len_utf16 ch) % 2 ^ 32 in
    let on = offset_loop position text line wider (index + len_utf8 ch) in
    let off = offset_loop position text line column (index + len_utf8 ch) in
    if line == position.line && column == position.character
    then ok index
    else (if ch == b'\n'
        then (if line == position.line
            then (if position.character == column then ok index else err out_of_bounds)
            else below)
        else (if line == position.line
            then (if ltb position.character wider
                then err (protocol (literal "virtual edit splits a code point"))
                else on)
            else off))

abbrev pub byte_offset : Chars → Position → Result ℕ
byte_offset text position = offset_loop position text 0 0 0

-- The text before a byte index and the text from it on; `none` is an index that is no boundary of a
-- code point, at which slicing a `str` panics.
unfoldable pub split_at_byte : ℕ → Chars → Option (Chars × Chars)
split_at_byte n [] = if n == 0 then some ([], []) else none
split_at_byte n (ch ∷ text) =
    let rest = split_at_byte (n - len_utf8 ch) text in
    if n == 0
    then some ([], ch ∷ text)
    else (if ltb n (len_utf8 ch)
        then none
        else elim rest [ none ↦ none | some (before, after) ↦ some (ch ∷ before, after) ])

-- `String::replace_range(start..end, with)`
unfoldable pub replace_range : ℕ → ℕ → Chars → Chars → Option Chars
unfolding split_at_byte
replace_range start end with text = elim (split_at_byte start text) [
  | none ↦ none
  | some (before, rest) ↦ elim (split_at_byte (end - start) rest) [
    | none ↦ none
    | some (gone, after) ↦ some (before ++ with ++ after)
  ]
]

-- The new text, or the error that leaves it as it was; `none` is a panic.
unfoldable pub apply_change : Chars → VirtualChange → Option (Result Chars)
unfolding offset_loop replace_range
apply_change text change = elim change.range [
  | none ↦ some (ok change.text)
  | some (from, to) ↦ elim (byte_offset text from) [
    | err e ↦ some (err e)
    | ok start ↦ elim (byte_offset text to) [
      | err e ↦ some (err e)
      | ok end ↦
          if ltb end start
          then some (err (protocol (literal "virtual edit has an inverted range")))
          else (elim (replace_range start end change.text text) [
            | none ↦ none
            | some text' ↦ some (ok text')
          ])
    ]
  ]
]

-- The loop of `apply_changes`: the text as it was left, and how the loop ended.
unfoldable pub apply_all : Chars → List VirtualChange → Option (Chars × Result (Unit {0}))
unfolding apply_change
apply_all text [] = some (text, ok tt)
apply_all text (change ∷ changes) = elim (apply_change text change) [
  | none ↦ none
  | some (err e) ↦ some (text, err e)
  | some (ok text') ↦ apply_all text' changes
]

-- An event has the fields of its change.
unfoldable pub apply_changes :
    VirtualDocument → List VirtualChange → Option (VirtualDocument × Result (List VirtualChange))
unfolding apply_all
apply_changes d [] = some (d, ok [])
apply_changes d (change ∷ changes) = elim (apply_all d.text (change ∷ changes)) [
  | none ↦ none
  | some (text', err e) ↦ some (record d { text = text' }, err e)
  | some (text', ok _) ↦
      some (record d { text = text'; version = (d.version + 1) % 2 ^ 32 }, ok (change ∷ changes))
]
