-- ===== src/Client/Msgpack/RoundTrip.antt =====
-- A message written by `write_tuple` is read back by `read_tuple`; the size limit on both sides.
use corsa_bind.Common.{
  ℕ, ◌%◌, ◌≤◌, ◌<◌, true, Option, List, [], ◌∷◌, ◌++◌, Bytes, length, concat, ltb, leb, ◌==◌,
  nat_eq, if◌then◌else◌, ◌≡◌, refl, ap, ◌∙◌, subst, arith, append-nil, Bool-cases, inl, inr, ge→ltb,
  lt→ltb,
}
use corsa_bind.Core.Error.{IoError, protocol, Result, ok, err}
use corsa_bind.Core.Text.{with_num}
use corsa_bind.Io.Stream.{
  Writer, Writes, IsLive, Emits, write_all-Emits, flush-Emits, then-Emits, then_ok, then_err,
  fresh_writer, ◌then◌,
}
use corsa_bind.Client.Msgpack.{
  fail, bin_too_large, max_bin_bytes, MsgpackTuple, Reads, ◌>>=◌, pure, read_exact, read_byte,
  read_int, read_len, from_be, bin_len, read_bin, read_tuple, mapped, write_all, flush, be_u16,
  be_u32, write_bin_len, write_bin, write_tuple,
}
use corsa_bind.Client.Msgpack.Parses.{
  Parses, Parses-bind, Parses-pure, Parses-read_exact, Parses-read_byte,
}

mapped-Emits : {m : Writes} {xs : Bytes} → Emits m xs → Emits (λ w. ((m w).0, mapped (m w).1)) xs
mapped-Emits f = record {
  emits = λ w h.
      let (w', e, p, q) = f.emits w h in
      (w', ap (λ (x : Writer × Result (Unit {0})). (x.0, mapped x.1)) e, p, q);
}

out : (bs : Bytes) → Emits (write_all bs) bs
out bs = mapped-Emits (write_all-Emits bs)

-- The marker byte of a length, and the length's own bytes.
abbrev pub marker : ℕ → ℕ
marker n = if leb n 255 then 0xc4 else if leb n 65535 then 0xc5 else 0xc6

abbrev pub len_bytes : ℕ → Bytes
len_bytes n = if leb n 255 then n % 256 ∷ [] else if leb n 65535 then be_u16 n else be_u32 n

write_bin_len-Emits : (n : ℕ) → Emits (write_bin_len n) (marker n ∷ len_bytes n)
unfolding write_bin_len
write_bin_len-Emits n = elim (Bool-cases (leb n 255)) [
  | inl small ↦ rw small (out (0xc4 ∷ n % 256 ∷ []))
  | inr large ↦ elim (Bool-cases (leb n 65535)) [
    | inl mid ↦ rw (large, mid) (then-Emits (out (0xc5 ∷ [])) (out (be_u16 n)))
    | inr big ↦ rw (large, big) (then-Emits (out (0xc6 ∷ [])) (out (be_u32 n)))
  ]
]

Parses-read_len : (bs : Bytes) (n : ℕ) → from_be 0 bs ≡ n → Parses (read_len (length bs)) bs n
Parses-read_len bs n e =
    subst (λ (x : Bytes). Parses (read_len (length bs)) x n) (append-nil bs)
      (Parses-bind (read_exact (length bs)) (λ x. pure (from_be 0 x)) bs [] bs n
        (Parses-read_exact bs) (rw e (Parses-pure n)))

bin_len-Parses : (n : ℕ) → n ≤ max_bin_bytes → Parses (bin_len (marker n)) (len_bytes n) n
unfolding bin_len
bin_len-Parses n le = elim (Bool-cases (leb n 255)) [
  | inl small ↦ rw small (Parses-read_len (n % 256 ∷ []) n (ground arith))
  | inr large ↦ elim (Bool-cases (leb n 65535)) [
    | inl mid ↦ rw (large, mid) (Parses-read_len (be_u16 n) n (ground arith))
    | inr big ↦ rw (large, big) (Parses-read_len (be_u32 n) n (ground arith))
  ]
]

pub bin : Bytes → Bytes
bin bytes = marker (length bytes) ∷ (len_bytes (length bytes) ++ bytes)

write_bin-Emits :
    (bytes : Bytes) → length bytes ≤ max_bin_bytes → Emits (write_bin bytes) (bin bytes)
write_bin-Emits bytes le = record {
  emits = λ w h.
      let (w', e, p, q) = (then-Emits (write_bin_len-Emits (length bytes)) (out bytes)).emits w h in
      (
        w',
        unfold write_bin in rw (ge→ltb max_bin_bytes (length bytes) le, write_bin) e,
        unfold bin in p,
        q,
      );
}

read_bin-Parses : (bytes : Bytes) → length bytes ≤ max_bin_bytes → Parses read_bin (bin bytes) bytes
unfolding read_bin bin
read_bin-Parses bytes le =
    let n = length bytes in
    let body =
      λ (len : ℕ). if ltb max_bin_bytes len then fail (bin_too_large len) else read_exact len in
    Parses-bind read_byte (λ tag. bin_len tag >>= body) (marker n ∷ []) (len_bytes n ++ bytes)
      (marker n) bytes (Parses-read_byte (marker n))
      (Parses-bind (bin_len (marker n)) body (len_bytes n) bytes n bytes (bin_len-Parses n le)
        (rw (ge→ltb max_bin_bytes n le) (Parses-read_exact bytes)))

abbrev int_after : ℕ → Reads ℕ
int_after b =
    if leb b 0x7f
    then pure b
    else if b == 0xcc
    then read_byte
    else fail (protocol (with_num "expected uint8 marker, got {:x}" b))

read_int-Parses : (kind : ℕ) → kind ≤ 0x7f → Parses read_int (kind ∷ []) kind
unfolding read_int
read_int-Parses kind le =
    let small : leb kind 0x7f ≡ true = ground arith in
    Parses-bind read_byte int_after (kind ∷ []) [] kind kind (Parses-read_byte kind)
      (rw small (Parses-pure kind))

pub tuple_bytes : ℕ → Bytes → Bytes → Bytes
tuple_bytes kind method payload = 0x93 ∷ kind ∷ (bin method ++ bin payload)

module _ (kind : ℕ) (method payload : Bytes) (k : kind ≤ 0x7f) (m : length method ≤ max_bin_bytes)
    (p : length payload ≤ max_bin_bytes) where
  abbrev message : MsgpackTuple
  message = record { kind = kind; method = method; payload = payload }

  write_tuple-Emits : Emits (write_tuple kind method payload) (tuple_bytes kind method payload)
  unfolding write_tuple tuple_bytes
  write_tuple-Emits =
      subst (Emits (write_tuple kind method payload))
        (append-nil (0x93 ∷ kind ∷ (bin method ++ bin payload)))
        (then-Emits
          (then-Emits (then-Emits (out (0x93 ∷ kind ∷ [])) (write_bin-Emits method m))
            (write_bin-Emits payload p))
          (mapped-Emits flush-Emits))

  read_payload-Parses :
      Parses
        (read_bin >>= λ x. pure (record { kind = kind; method = method; payload = x }))
        (bin payload)
        message
  read_payload-Parses =
      subst
        (λ (x : Bytes).
          Parses (read_bin >>= λ x. pure (record { kind = kind; method = method; payload = x })) x
            message)
        (append-nil (bin payload))
        (Parses-bind read_bin (λ x. pure (record { kind = kind; method = method; payload = x }))
          (bin payload) [] payload message (read_bin-Parses payload p) (Parses-pure message))

  abbrev after_kind : ℕ → Reads MsgpackTuple
  after_kind j =
      read_bin >>= λ x. read_bin >>= λ y. pure (record { kind = j; method = x; payload = y })

  read_tuple-Parses : Parses read_tuple (tuple_bytes kind method payload) message
  unfolding read_tuple tuple_bytes
  read_tuple-Parses =
      Parses-bind read_byte
        (λ tag.
          if tag == 0x93
          then (read_int >>= after_kind)
          else fail (protocol (with_num "expected tuple marker, got {:x}" tag)))
        (0x93 ∷ []) (kind ∷ (bin method ++ bin payload)) 0x93 message (Parses-read_byte 0x93)
        (Parses-bind read_int after_kind (kind ∷ []) (bin method ++ bin payload) kind message
          (read_int-Parses kind k)
          (Parses-bind read_bin
            (λ x. read_bin >>= λ y. pure (record { kind = kind; method = x; payload = y }))
            (bin method) (bin payload) method message (read_bin-Parses method m)
            read_payload-Parses))

-- With every call of the writer succeeding, a message whose kind is at most 0x7f and whose parts
-- are within the size limit is written.
pub write_tuple_total :
    (kind : ℕ) (method payload : Bytes)
    → kind ≤ 0x7f
    → length method ≤ max_bin_bytes
    → length payload ≤ max_bin_bytes
    → (w : Writer) × (write_tuple kind method payload fresh_writer ≡ (w, ok tt))
      × (w.written ≡ tuple_bytes kind method payload)
write_tuple_total kind method payload k m p =
    let (w, wrote, bytes, _) =
      (write_tuple-Emits kind method payload k m p).emits fresh_writer refl in
    (w, wrote, bytes)

-- From any stream that begins with what `write_tuple` wrote for a message whose kind is at most
-- 0x7f and whose parts are within the size limit, however it is cut into non-empty chunks,
-- `read_tuple` returns that message and leaves exactly what stands behind it.
pub read_tuple-write_tuple :
    (kind : ℕ) (method payload rest : Bytes) (w : Writer) (cs : List Bytes) (e : Option IoError)
    → kind ≤ 0x7f
    → length method ≤ max_bin_bytes
    → length payload ≤ max_bin_bytes
    → write_tuple kind method payload fresh_writer ≡ (w, ok tt)
    → IsLive cs
    → concat cs ≡ w.written ++ rest
    → (left : List Bytes) × (read_tuple (record { chunks = cs; ending = e })
        ≡ ok (
          record { kind = kind; method = method; payload = payload },
          record { chunks = left; ending = e },
        ))
      × (concat left ≡ rest)
read_tuple-write_tuple kind method payload rest w cs e k m p wrote live h =
    let (w', wrote', bytes) = write_tuple_total kind method payload k m p in
    let same : w.written ≡ tuple_bytes kind method payload = cc (wrote, wrote', bytes) in
    let (left, r, c, _) =
      (read_tuple-Parses kind method payload k m p).parses rest cs e live
        (h ∙ ap (λ (b : Bytes). b ++ rest) same) in
    (left, r, c)

write_bin_oversized :
    (bytes : Bytes) (w : Writer)
    → max_bin_bytes < length bytes
    → write_bin bytes w ≡ (w, err (bin_too_large (length bytes)))
unfolding write_bin
write_bin_oversized bytes w h = rw (lt→ltb max_bin_bytes (length bytes) h, write_bin) refl

-- With a method within the size limit, a payload over the limit is refused only after the marker, the kind and the method have been
-- written: the error leaves those bytes of an unfinished message on the writer.
pub write_tuple_oversized :
    (kind : ℕ) (method payload : Bytes)
    → length method ≤ max_bin_bytes
    → max_bin_bytes < length payload
    → (w : Writer) × (write_tuple kind method payload fresh_writer
        ≡ (w, err (bin_too_large (length payload))))
      × (w.written ≡ 0x93 ∷ kind ∷ bin method)
unfolding write_tuple
write_tuple_oversized kind method payload m p =
    let head = write_all (0x93 ∷ kind ∷ []) then write_bin method in
    let (w, e, bytes, _) =
      (then-Emits (out (0x93 ∷ kind ∷ [])) (write_bin-Emits method m)).emits fresh_writer refl in
    (
      w,
      then_err (head then write_bin payload) flush fresh_writer w (bin_too_large (length payload))
          (then_ok head (write_bin payload) fresh_writer w e ∙ write_bin_oversized payload w p),
      bytes,
    )
