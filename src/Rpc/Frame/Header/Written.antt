-- ===== src/Rpc/Frame/Header/Written.antt =====
-- The header that `write_frame` writes, as `parse_content_length` reads it.
use corsa_bind.Common.{
  ℕ, suc, ◌<◌, true, false, some, List, [], ◌∷◌, ◌++◌, Bytes, All, All-append, All-mono, codes,
  take, drop, nat_eq, ◌≡◌, ◌≢◌, refl, ap, ◌∙◌, arith,
}
use corsa_bind.Core.Error.{Result, ok}
use corsa_bind.Rpc.Frame.Decimal.{usize_mod, parse_ascii_usize}
use corsa_bind.Rpc.Frame.Decimal.RoundTrip.{IsDigit, Denotes, parse_ascii_usize_iff}
use corsa_bind.Rpc.Frame.Header.{
  Search, header_end, content_length, trim_eol, trim_end, trim_ascii, eq_ignore_ascii_case,
  split_lines, parse_lines, parse_content_length, line_step, is_empty,
}
use corsa_bind.Rpc.Frame.Header.Locate.{index_of, memchr-index_of}

abbrev pub name_and_colon : Bytes
name_and_colon = codes "Content-Length: "

abbrev pub NoBreak : Bytes → Type 0
NoBreak = All (λ c. (c ≢ b'\r') × (c ≢ b'\n'))

digits-NoBreak : (ds : Bytes) → All IsDigit ds → NoBreak ds
digits-NoBreak = All-mono IsDigit _ (λ c h. omega arith)

pub written-NoBreak : (ds : Bytes) → All IsDigit ds → NoBreak (name_and_colon ++ ds)
written-NoBreak ds h = All-append _ name_and_colon ds (omega arith) (digits-NoBreak ds h)

split_lines-NoBreak :
    (l : Bytes)
    → NoBreak l
    → split_lines (l ++ header_end) ≡ (l ++ b'\r' ∷ [], (b'\r' ∷ []) ∷ [] ∷ [])
unfolding split_lines
split_lines-NoBreak [] h = refl
split_lines-NoBreak (c ∷ l) h = ground (arith, split_lines-NoBreak l h.1)

trim_eol-concat : (l : Bytes) → trim_eol (l ++ b'\r' ∷ []) ≡ l
unfolding trim_eol
trim_eol-concat [] = refl
trim_eol-concat (c ∷ []) = refl
trim_eol-concat (c ∷ d ∷ l) = ap (◌∷◌ c) (trim_eol-concat (d ∷ l))

trim_end-digits : (ds : Bytes) → All IsDigit ds → trim_end ds ≡ ds
unfolding trim_end
trim_end-digits [] h = refl
trim_end-digits (d ∷ []) h = ground arith
trim_end-digits (d ∷ e ∷ ds) h = ground (arith, trim_end-digits (e ∷ ds) h.1)

trim_end-cons : (c d : ℕ) (l : Bytes) → trim_end (d ∷ l) ≡ d ∷ l → trim_end (c ∷ d ∷ l) ≡ c ∷ d ∷ l
unfolding trim_end
trim_end-cons c d l h = ground arith

trim_end-append :
    (xs : Bytes) (d : ℕ) (ds : Bytes)
    → All IsDigit (d ∷ ds)
    → trim_end (xs ++ d ∷ ds) ≡ xs ++ d ∷ ds
trim_end-append [] d ds h = trim_end-digits (d ∷ ds) h
trim_end-append (x ∷ []) d ds h = trim_end-cons x d ds (trim_end-append [] d ds h)
trim_end-append (x ∷ y ∷ xs) d ds h = trim_end-cons x y _ (trim_end-append (y ∷ xs) d ds h)

name_matches : eq_ignore_ascii_case (trim_ascii (codes "Content-Length")) content_length ≡ true
unfolding eq_ignore_ascii_case trim_ascii
name_matches = refl

line_step_named :
    (searches : Search) (raw line : Bytes) (rest : Result ℕ) (index : ℕ)
    → trim_ascii (trim_eol raw) ≡ line
    → is_empty line ≡ false
    → searches.memchr b':' line ≡ some index
    → eq_ignore_ascii_case (trim_ascii (take index line)) content_length ≡ true
    → line_step searches raw rest ≡ parse_ascii_usize (trim_ascii (drop (suc index) line))
unfolding line_step
line_step_named searches raw line rest index e ne at name = ground arith

module _ (searches : Search) (d : ℕ) (ds : Bytes) (n : ℕ) (digits : Denotes n (d ∷ ds))
    (fits : n < usize_mod) where
  abbrev key_value : Bytes
  key_value = name_and_colon ++ d ∷ ds

  trim_ascii-key_value : trim_ascii key_value ≡ key_value
  unfolding trim_ascii
  trim_ascii-key_value = trim_end-append name_and_colon d ds digits.all_digits

  trim_ascii_value : trim_ascii (b' ' ∷ d ∷ ds) ≡ d ∷ ds
  unfolding trim_ascii
  trim_ascii_value = ground (arith, trim_end-digits (d ∷ ds) digits.all_digits)

  colon_at : searches.memchr b':' key_value ≡ some 14
  unfolding index_of
  colon_at = memchr-index_of searches b':' key_value

  parse_lines_written :
      (lines : List Bytes) → parse_lines searches ((key_value ++ b'\r' ∷ []) ∷ lines) ≡ ok n
  unfolding parse_lines
  parse_lines_written lines =
      line_step_named searches (key_value ++ b'\r' ∷ []) key_value (parse_lines searches lines) 14
        (ap trim_ascii (trim_eol-concat key_value) ∙ trim_ascii-key_value) refl colon_at
        name_matches
      ∙ ap parse_ascii_usize trim_ascii_value
      ∙ (parse_ascii_usize_iff (d ∷ ds) n).1 ((λ e. cc), digits, fits)

-- The header block of a frame parses to the length that it states.
pub parse_content_length_written :
    (searches : Search) (ds : Bytes) (n : ℕ)
    → ds ≢ []
    → Denotes n ds
    → n < usize_mod
    → parse_content_length searches ((name_and_colon ++ ds) ++ header_end) ≡ ok n
unfolding parse_content_length
parse_content_length_written searches [] n ne digits fits = absurd (ne refl)
parse_content_length_written searches (d ∷ ds) n ne digits fits =
    ap (λ (p : Bytes × List Bytes). parse_lines searches (p.0 ∷ p.1))
      (split_lines-NoBreak (name_and_colon ++ d ∷ ds) (written-NoBreak (d ∷ ds) digits.all_digits))
    ∙ parse_lines_written searches d ds n digits fits ((b'\r' ∷ []) ∷ [] ∷ [])
