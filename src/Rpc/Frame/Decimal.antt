-- ===== src/Rpc/Frame/Decimal.antt =====
-- The decimal numbers of frame.rs: `append_usize` and `parse_ascii_usize`, at 64 bits.
pub mod RoundTrip
use corsa_bind.Common.{
  ℕ, zero, suc, ◌+◌, ◌-◌, ◌*◌, ◌/◌, ◌%◌, ◌^◌, Bool, true, false, Option, none, some, List, [], ◌∷◌,
  ◌++◌, ◌&&◌, Bytes, ltb, leb, ◌==◌, nat_eq, if◌then◌else◌, not, ◌≡◌, refl, codes, length,
}
use corsa_bind.Core.Error.{protocol, Result, ok, err, ◌>>=◌, ok_or}
use corsa_bind.Core.Text.{literal}

abbrev pub usize_mod : ℕ
usize_mod = 2 ^ 64

-- `let mut digits = [0_u8; 20]` and the loop that fills it. The first argument is the room left in
-- the array, whose digits so far are listed from the last written; `none` is a write past its end.
unfoldable pub digits : ℕ → ℕ → Bytes → Option Bytes
digits zero value out = if value == 0 then some out else none
digits (suc room) value out =
    let rest = digits room (value / 10) ((b'0' + value % 10) ∷ out) in
    if value == 0 then some out else rest

-- The second loop reads the array from its end, which is the order of the list.
unfoldable pub append_usize : Bytes → ℕ → Option Bytes
append_usize buffer value =
    if value == 0
    then some (buffer ++ b'0' ∷ [])
    else elim (digits 20 value []) [ none ↦ none | some ds ↦ some (buffer ++ ds) ]

abbrev pub is_ascii_digit : ℕ → Bool
is_ascii_digit c = leb b'0' c && leb c b'9'

-- `usize::checked_mul` and `usize::checked_add`.
abbrev pub checked : ℕ → Option ℕ
checked n = if ltb n usize_mod then some n else none

abbrev pub checked_mul_add : ℕ → ℕ → Option ℕ
checked_mul_add value digit = elim (checked (value * 10)) [
  | none ↦ none
  | some scaled ↦ checked (scaled + digit)
]

unfoldable pub parse_digits : Bytes → ℕ → Result ℕ
parse_digits [] value = ok value
parse_digits (byte ∷ bytes) value =
    if not (is_ascii_digit byte) then err (protocol (literal "invalid Content-Length")) else do
      next ←
          ok_or (checked_mul_add value (byte - b'0')) (protocol (literal "Content-Length overflow"))
      parse_digits bytes next

unfoldable pub parse_ascii_usize : Bytes → Result ℕ
unfolding parse_digits
parse_ascii_usize [] = err (protocol (literal "empty Content-Length"))
parse_ascii_usize (b ∷ bs) = parse_digits (b ∷ bs) 0
