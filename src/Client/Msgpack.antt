-- ===== src/Client/Msgpack.antt =====
-- src/core/corsa_client/src/api/msgpack_codec.rs: the three-element message of the msgpack
-- transport. A failed reservation of memory is not modelled.
pub mod Parses
pub mod RoundTrip
pub mod Tests
use corsa_bind.Common.{
  ℕ, ◌+◌, ◌*◌, ◌/◌, ◌%◌, ◌^◌, Bool, true, false, Option, none, some, List, [], ◌∷◌, ◌++◌, Bytes,
  length, ltb, leb, ◌==◌, nat_eq, if◌then◌else◌, get_elem?,
}
use corsa_bind.Core.Error.{
  CorsaError, protocol, closed, io, ErrorKind, unexpected_eof, broken_pipe, connection_reset,
  Result, ok, err,
}
use corsa_bind.Core.Error
use corsa_bind.Core.Text.{Text, Arg, with_num}
use corsa_bind.Io.Stream.{Reader, Writer, Writes, ◌then◌}
use corsa_bind.Io.Stream

abbrev pub msg_request : ℕ
msg_request = 1

abbrev pub msg_call_response : ℕ
msg_call_response = 2

abbrev pub msg_call_error : ℕ
msg_call_error = 3

abbrev pub msg_response : ℕ
msg_response = 4

abbrev pub msg_error : ℕ
msg_error = 5

abbrev pub msg_call : ℕ
msg_call = 6

abbrev pub max_bin_bytes : ℕ
max_bin_bytes = 512 * 1024 * 1024

pub record MsgpackTuple : Type 0 where
  pub kind : ℕ
  pub method : Bytes
  pub payload : Bytes

-- What reads from the stream and may fail.
abbrev pub Reads : Type 0 → Type 0
Reads A = Reader → Result (A × Reader)

infixl 5 ◌>>=◌
abbrev pub ◌>>=◌ : {A B : Type 0} → Reads A → (A → Reads B) → Reads B
◌>>=◌ m f r = elim (m r) [ ok (a, r') ↦ f a r' | err e ↦ err e ]

abbrev pub pure : {A : Type 0} → A → Reads A
pure a r = ok (a, r)

abbrev pub fail : {A : Type 0} → CorsaError → Reads A
fail e r = err e

abbrev map_read_kind : ErrorKind → CorsaError → CorsaError
map_read_kind unexpected_eof e = closed "msgpack stdout"
map_read_kind _ e = e

abbrev map_read_error : CorsaError → CorsaError
map_read_error (io e) = map_read_kind e.kind (io e)
map_read_error e = e

unfoldable pub read_exact : ℕ → Reads Bytes
read_exact n r = elim (Stream.read_exact n r) [
  | ok (bs, r') ↦ ok (bs, r')
  | err e ↦ err (map_read_error e)
]

-- The byte of a one-byte read.
abbrev pub first_byte : Bytes → ℕ
first_byte [] = 0
first_byte (b ∷ bs) = b

abbrev pub read_byte : Reads ℕ
read_byte = read_exact 1 >>= λ bs. pure (first_byte bs)

unfoldable pub read_int : Reads ℕ
read_int = do
  b ← read_byte
  if leb b 0x7f
      then pure b
      else if b == 0xcc
      then read_byte
      else fail (protocol (with_num "expected uint8 marker, got {:x}" b))

-- `from_be_bytes`
abbrev pub from_be : ℕ → Bytes → ℕ
from_be acc [] = acc
from_be acc (b ∷ bs) = from_be (acc * 256 + b) bs

-- `read_len::<N>`, called at the widths 1, 2 and 4 alone.
abbrev pub read_len : ℕ → Reads ℕ
read_len width = read_exact width >>= λ bs. pure (from_be 0 bs)

-- The length after a marker.
unfoldable pub bin_len : ℕ → Reads ℕ
bin_len tag =
    if tag == 0xc4
    then read_len 1
    else if tag == 0xc5
    then read_len 2
    else if tag == 0xc6
    then read_len 4
    else fail (protocol (with_num "expected bin marker, got {:x}" tag))

abbrev pub bin_too_large : ℕ → CorsaError
bin_too_large n = protocol (record {
  format = "msgpack bin is too large: {} bytes exceeds {} byte safety limit";
  args = Arg.num n ∷ Arg.num max_bin_bytes ∷ [];
})

unfoldable pub read_bin : Reads Bytes
read_bin = do
  tag ← read_byte
  len ← bin_len tag
  if ltb max_bin_bytes len then fail (bin_too_large len) else read_exact len

unfoldable pub read_tuple : Reads MsgpackTuple
read_tuple = do
  tag ← read_byte
  if tag == 0x93
      then (read_int >>= λ kind. read_bin >>= λ method.
          read_bin >>= λ payload. pure (record { kind = kind; method = method; payload = payload }))
      else fail (protocol (with_num "expected tuple marker, got {:x}" tag))

abbrev map_write_kind : ErrorKind → CorsaError → CorsaError
map_write_kind broken_pipe e = closed "msgpack stdin"
map_write_kind connection_reset e = closed "msgpack stdin"
map_write_kind _ e = e

abbrev pub map_write_error : CorsaError → CorsaError
map_write_error (io e) = map_write_kind e.kind (io e)
map_write_error e = e

abbrev pub mapped : Result (Unit {0}) → Result (Unit {0})
mapped (ok u) = ok u
mapped (err e) = err (map_write_error e)

abbrev pub write_all : Bytes → Writes
write_all bs w = let (w', r) = Stream.write_all bs w in (w', mapped r)

abbrev pub flush : Writes
flush w = let (w', r) = Stream.flush w in (w', mapped r)

-- `(n as u16).to_be_bytes()` and `(n as u32).to_be_bytes()`
abbrev pub be_u16 : ℕ → Bytes
be_u16 n = let m = n % 2 ^ 16 in m / 256 ∷ m % 256 ∷ []

abbrev pub be_u32 : ℕ → Bytes
be_u32 n = let m = n % 2 ^ 32 in m / 2 ^ 24 ∷ (m / 2 ^ 16) % 256 ∷ (m / 256) % 256 ∷ m % 256 ∷ []

-- The marker and the length of a byte string.
unfoldable pub write_bin_len : ℕ → Writes
write_bin_len n =
    if leb n 255
    then write_all (0xc4 ∷ n % 256 ∷ [])
    else if leb n 65535
    then (write_all (0xc5 ∷ []) then write_all (be_u16 n))
    else (write_all (0xc6 ∷ []) then write_all (be_u32 n))

unfoldable pub write_bin : Bytes → Writes
write_bin bytes w =
    if ltb max_bin_bytes (length bytes)
    then (w, err (bin_too_large (length bytes)))
    else (write_bin_len (length bytes) then write_all bytes) w

unfoldable pub write_tuple : ℕ → Bytes → Bytes → Writes
write_tuple kind method payload =
    write_all (0x93 ∷ kind ∷ []) then write_bin method then write_bin payload then flush
