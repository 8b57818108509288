-- ===== src/Rpc/Frame/Header.antt =====
-- The header block of frame.rs. The searches of the memchr crate are a parameter.
pub mod Locate
pub mod Written
use corsa_bind.Common.{
  ℕ, zero, suc, ◌+◌, ◌≤◌, ◌<◌, Bool, true, false, Option, none, some, List, [], ◌∷◌, ◌++◌, ◌||◌,
  ◌&&◌, Bytes, codes, length, take, drop, get_elem?, leb, ◌==◌, nat_eq, if◌then◌else◌, ◌≡◌, ◌≢◌,
  refl,
}
use corsa_bind.Core.Error.{protocol, Result, ok, err}
use corsa_bind.Core.Text.{literal}
use corsa_bind.Rpc.Frame.Decimal.{parse_ascii_usize}
use mathlib.Core.List.{reverse}

abbrev pub starts_with : Bytes → Bytes → Bool
starts_with [] bs = true
starts_with (x ∷ xs) [] = false
starts_with (x ∷ xs) (b ∷ bs) = x == b && starts_with xs bs

-- `memchr::memmem::find(haystack, needle)` and `memchr::memchr(needle, haystack)`: the index of the
-- first occurrence, if there is one.
pub record Search : Type 0 where
  pub memmem : Bytes → Bytes → Option ℕ
  pub memchr : ℕ → Bytes → Option ℕ
  pub memmem_at :
      (h n : Bytes) (i : ℕ)
      → memmem h n ≡ some i
      → (i ≤ length h) × (starts_with n (drop i h) ≡ true)
  pub memmem_first :
      (h n : Bytes) (i j : ℕ) → memmem h n ≡ some i → j < i → starts_with n (drop j h) ≡ false
  pub memmem_none : (h n : Bytes) (j : ℕ) → memmem h n ≡ none → starts_with n (drop j h) ≡ false
  pub memchr_at : (b : ℕ) (h : Bytes) (i : ℕ) → memchr b h ≡ some i → get_elem? h i ≡ some b
  pub memchr_first :
      (b : ℕ) (h : Bytes) (i j : ℕ) → memchr b h ≡ some i → j < i → get_elem? h j ≢ some b
  pub memchr_none : (b : ℕ) (h : Bytes) (j : ℕ) → memchr b h ≡ none → get_elem? h j ≢ some b

abbrev pub header_end : Bytes
header_end = codes "\r\n\r\n"

abbrev pub content_length : Bytes
content_length = codes "content-length"

-- `[u8]::strip_suffix(b"\r").unwrap_or(bytes)`
unfoldable pub trim_eol : Bytes → Bytes
trim_eol [] = []
trim_eol (b ∷ []) = if b == b'\r' then [] else b ∷ []
trim_eol (b ∷ c ∷ bs) = b ∷ trim_eol (c ∷ bs)

-- `u8::is_ascii_whitespace`
abbrev pub is_ascii_whitespace : ℕ → Bool
is_ascii_whitespace b = b == 0x20 || b == 0x09 || b == 0x0a || b == 0x0c || b == 0x0d

-- The loop that moves `start`, and the one that moves `end`.
unfoldable pub trim_start : Bytes → Bytes
trim_start [] = []
trim_start (b ∷ bs) = if is_ascii_whitespace b then trim_start bs else b ∷ bs

unfoldable pub trim_end : Bytes → Bytes
trim_end [] = []
trim_end (b ∷ bs) = elim (trim_end bs) [
  | [] ↦ if is_ascii_whitespace b then [] else b ∷ []
  | c ∷ cs ↦ b ∷ c ∷ cs
]

unfoldable pub trim_ascii : Bytes → Bytes
unfolding trim_start trim_end
trim_ascii bytes = trim_end (trim_start bytes)

-- `u8::to_ascii_lowercase`, and `[u8]::eq_ignore_ascii_case`
abbrev pub lower : ℕ → ℕ
lower b = if leb b'A' b && leb b b'Z' then b + 32 else b

unfoldable pub eq_ignore_ascii_case : Bytes → Bytes → Bool
eq_ignore_ascii_case [] [] = true
eq_ignore_ascii_case (x ∷ xs) (y ∷ ys) = lower x == lower y && eq_ignore_ascii_case xs ys
eq_ignore_ascii_case _ _ = false

-- `header.split(|byte| *byte == b'\n')`: the line in progress and the lines after it.
unfoldable pub split_lines : Bytes → Bytes × List Bytes
split_lines [] = ([], [])
split_lines (b ∷ bs) =
    let (line, lines) = split_lines bs in
    if b == b'\n' then ([], line ∷ lines) else (b ∷ line, lines)

abbrev pub is_empty : Bytes → Bool
is_empty [] = true
is_empty (b ∷ bs) = false

module _ (searches : Search) where
  -- One round of the loop over the lines, given what it does with the lines after.
  unfoldable pub line_step : Bytes → Result ℕ → Result ℕ
  line_step raw rest =
      let line = trim_ascii (trim_eol raw) in
      if is_empty line then rest else elim (searches.memchr b':' line) [
        | none ↦ rest
        | some index ↦
            let key = trim_ascii (take index line) in
            let value = trim_ascii (drop (suc index) line) in
            if eq_ignore_ascii_case key content_length then parse_ascii_usize value else rest
      ]

  unfoldable pub parse_lines : List Bytes → Result ℕ
  unfolding line_step
  parse_lines [] = err (protocol (literal "missing Content-Length"))
  parse_lines (raw ∷ lines) = line_step raw (parse_lines lines)

  unfoldable pub parse_content_length : Bytes → Result ℕ
  unfolding parse_lines split_lines
  parse_content_length header = let (line, lines) = split_lines header in parse_lines (line ∷ lines)
