-- ===== src/Client/SourceFile/Cursor.antt =====
-- src/core/corsa_client/src/api/source_file.rs: the cursor over the msgpack data of a payload.
use Prim.Native.Nat.{bit_and, min}
use corsa_bind.Common.{
  ℕ, zero, suc, ◌+◌, ◌-◌, ◌^◌, ◌==◌, nat_eq, Bytes, ◌&&◌, List, [], ◌∷◌, length, leb, if◌then◌else◌,
}
use corsa_bind.Core.Error.{Result, ok, err, ◌>>=◌, ok_or}
use corsa_bind.Client.Msgpack.{from_be}
use corsa_bind.Client.SourceFile.Raw.{refused, get_range}

pub record MsgpackCursor : Type 0 where
  pub bytes : Bytes
  pub position : ℕ

abbrev pub new_cursor : Bytes → MsgpackCursor
new_cursor bytes = record { bytes = bytes; position = 0 }

-- A read: its value and the cursor behind it. An error ends the decoding.
abbrev pub CursorRead : Type 0 → Type 0
CursorRead A = Result (A × MsgpackCursor)

unfoldable pub take_bytes : MsgpackCursor → ℕ → CursorRead Bytes
take_bytes c count =
    ok_or (get_range c.bytes c.position (c.position + count)) (
      refused "structured data ended after {} bytes while reading {count} more"
        (length c.bytes ∷ count ∷ []))
    >>= λ read. ok (read, record { bytes = c.bytes; position = c.position + count })

abbrev pub first_byte : Bytes → ℕ
first_byte [] = 0
first_byte (b ∷ bs) = b

unfoldable pub marker : MsgpackCursor → CursorRead ℕ
unfolding take_bytes
marker c = take_bytes c 1 >>= λ (read, after). ok (first_byte read, after)

abbrev pub u32_max : ℕ
u32_max = 2 ^ 32 - 1

unfoldable pub be_uint : MsgpackCursor → ℕ → CursorRead ℕ
unfolding take_bytes
be_uint c width = take_bytes c width >>= λ (read, after). ok (min (from_be 0 read) u32_max, after)

abbrev pub array_len_of : ℕ → MsgpackCursor → CursorRead ℕ
array_len_of m c =
    if leb 0x90 m && leb m 0x9f
    then ok (bit_and m 0x0f, c)
    else if m == 0xdc
    then be_uint c 2
    else if m == 0xdd
    then be_uint c 4
    else err (refused "expected a msgpack array marker, got {other:#04x}" (m ∷ []))

unfoldable pub array_len : MsgpackCursor → CursorRead ℕ
unfolding marker be_uint
array_len c = marker c >>= λ (m, after). array_len_of m after

abbrev pub uint_of : ℕ → MsgpackCursor → CursorRead ℕ
uint_of m c =
    if leb m 0x7f
    then ok (m, c)
    else if m == 0xcc
    then be_uint c 1
    else if m == 0xcd
    then be_uint c 2
    else if m == 0xce
    then be_uint c 4
    else if m == 0xcf
    then be_uint c 8
    else err (refused "expected a msgpack uint marker, got {other:#04x}" (m ∷ []))

unfoldable pub uint : MsgpackCursor → CursorRead ℕ
unfolding marker be_uint
uint c = marker c >>= λ (m, after). uint_of m after

abbrev pub string_len_of : ℕ → MsgpackCursor → CursorRead ℕ
string_len_of m c =
    if leb 0xa0 m && leb m 0xbf
    then ok (bit_and m 0x1f, c)
    else if m == 0xd9
    then be_uint c 1
    else if m == 0xda
    then be_uint c 2
    else if m == 0xdb
    then be_uint c 4
    else err (refused "expected a msgpack string marker, got {other:#04x}" (m ∷ []))

unfoldable pub string : MsgpackCursor → CursorRead Bytes
unfolding marker be_uint take_bytes
string c =
    marker c >>= λ (m, after). string_len_of m after >>= λ (count, there). take_bytes there count

-- A loop `for _ in 0..count` that pushes what its body reads.
unfoldable pub read_each :
    {A : Type 0} → (MsgpackCursor → CursorRead A) → ℕ → MsgpackCursor → CursorRead (List A)
read_each body zero c = ok ([], c)
read_each body (suc count) c =
    body c >>= λ (a, after). read_each body count after >>= λ (rest, end). ok (a ∷ rest, end)
