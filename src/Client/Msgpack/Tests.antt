-- ===== src/Client/Msgpack/Tests.antt =====
-- A message through the codec of msgpack_codec.rs.
use corsa_bind.Common.{
  ℕ, zero, suc, ◌<◌, none, List, [], ◌∷◌, ◌++◌, Bytes, codes, concat, length, ◌≡◌, refl, ap, arith,
}
use corsa_bind.Core.Error.{ok, err}
use corsa_bind.Io.Stream.{Writer, fresh_writer}
use corsa_bind.Client.Msgpack.{
  max_bin_bytes, bin_too_large, read_tuple, write_tuple, write_bin, write_bin_len,
}
use corsa_bind.Client.Msgpack.RoundTrip.{bin, read_tuple-write_tuple, write_tuple_oversized}

abbrev method : Bytes
method = codes "echo"

abbrev payload : Bytes
payload = codes "{}"

abbrev sent : Writer
sent = record {
  written = 0x93 ∷ 1 ∷ 0xc4 ∷ 4 ∷ (method ++ 0xc4 ∷ 2 ∷ payload);
  flushed = 12;
  outcomes = [];
}

writes_request : write_tuple 1 method payload fresh_writer ≡ (sent, ok tt)
unfolding write_tuple write_bin write_bin_len
writes_request = refl

abbrev chunks : List Bytes
chunks = (0x93 ∷ 1 ∷ 0xc4 ∷ []) ∷ (4 ∷ (method ++ 0xc4 ∷ [])) ∷ (2 ∷ (payload ++ 0x93 ∷ [])) ∷ []

read_tuple-write_tuple_example :
    (left : List Bytes) × (read_tuple (record { chunks = chunks; ending = none })
      ≡ ok (
        record { kind = 1; method = method; payload = payload },
        record { chunks = left; ending = none },
      ))
    × (concat left ≡ 0x93 ∷ [])
read_tuple-write_tuple_example =
    read_tuple-write_tuple 1 method payload (0x93 ∷ []) sent chunks none (omega arith) (omega arith)
      (omega arith) writes_request (omega arith, (omega arith, (omega arith, tt))) refl

-- A payload of `n` spaces.
unfoldable spaces : ℕ → Bytes
spaces zero = []
spaces (suc n) = 0x20 ∷ spaces n

length-spaces : (n : ℕ) → length (spaces n) ≡ n
unfolding spaces
length-spaces zero = refl
length-spaces (suc n) = ap suc (length-spaces n)

one_too_many : max_bin_bytes < length (spaces (suc max_bin_bytes))
one_too_many = omega (arith, length-spaces (suc max_bin_bytes))

write_tuple_oversized_example :
    (w : Writer) × (write_tuple 1 method (spaces (suc max_bin_bytes)) fresh_writer
      ≡ (w, err (bin_too_large (length (spaces (suc max_bin_bytes))))))
    × (w.written ≡ 0x93 ∷ 1 ∷ bin method)
write_tuple_oversized_example =
    write_tuple_oversized 1 method (spaces (suc max_bin_bytes)) (omega arith) one_too_many
