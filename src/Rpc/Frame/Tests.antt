-- ===== src/Rpc/Frame/Tests.antt =====
-- Searches that are run, and one frame through the framing of frame.rs.
use corsa_bind.Common.{
  ℕ, zero, suc, concat, ◌≤◌, true, false, none, some, List, [], ◌∷◌, Bytes, codes, length,
  get_elem?, nat_eq, ◌≡◌, ◌≢◌, refl, arith, Option-cases, inl, inr,
}
use corsa_bind.Core.Error.{ok}
use corsa_bind.Io.Stream.{Reader, Writer, fresh_writer, IsLive}
use corsa_bind.Rpc.Frame.{read_frame, write_frame}
use corsa_bind.Rpc.Frame.Decimal.{append_usize, digits}
use corsa_bind.Rpc.Frame.Header.{Search}
use corsa_bind.Rpc.Frame.Header.Locate.{
  index_of, find_sub, First, index_of-First, find_sub-First, is_at, starts_at, is_at-get_elem?,
}
use corsa_bind.Rpc.Frame.RoundTrip.{IsFrame, write_frame_total, read_frame-write_frame}

find_sub-empty : (h : Bytes) → find_sub [] h ≡ some 0
unfolding find_sub
find_sub-empty [] = refl
find_sub-empty (x ∷ xs) = refl

First-empty : (h : Bytes) → First (starts_at [] h) (find_sub [] h)
First-empty h = record {
  passes = λ i e. refl;
  before = λ i j e lt. let q : 0 ≡ i = cc (e, find_sub-empty h) in absurd (omega arith);
  never = λ j e. cc (e, find_sub-empty h);
}

found : (n h : Bytes) → First (starts_at n h) (find_sub n h)
found [] h = First-empty h
found (x ∷ n) h = find_sub-First (x ∷ n) h (λ e. cc)

find_sub-le : (n h : Bytes) (i : ℕ) → find_sub n h ≡ some i → i ≤ length h
unfolding find_sub
find_sub-le n [] i e = ground arith
find_sub-le n (x ∷ xs) i e = elim (Option-cases (find_sub n xs)) [
  | inl m ↦ ground (arith, m)
  | inr (k, m) ↦ ground (arith, m, find_sub-le n xs k m)
]

not-get_elem? : (b : ℕ) (h : Bytes) (j : ℕ) → is_at b h j ≡ false → get_elem? h j ≢ some b
not-get_elem? b h j f e = cc (f, is_at-get_elem? b h j e)

is_at-eq : (b : ℕ) (h : Bytes) (j : ℕ) → is_at b h j ≡ true → get_elem? h j ≡ some b
is_at-eq b [] j e = cc
is_at-eq b (x ∷ xs) zero e = ground arith
is_at-eq b (x ∷ xs) (suc j) e = is_at-eq b xs j e

pub plain : Search
plain = record {
  memmem = λ h n. find_sub n h;
  memchr = index_of;
  memmem_at = λ h n i e. (find_sub-le n h i e, (found n h).passes i e);
  memmem_first = λ h n i j e lt. (found n h).before i j e lt;
  memmem_none = λ h n j e. (found n h).never j e;
  memchr_at = λ b h i e. is_at-eq b h i ((index_of-First b h).passes i e);
  memchr_first = λ b h i j e lt. not-get_elem? b h j ((index_of-First b h).before i j e lt);
  memchr_none = λ b h j e. not-get_elem? b h j ((index_of-First b h).never j e);
}

abbrev frame : Bytes
frame = codes "Content-Length: 2\r\n\r\n{}"

abbrev written : Writer
written = record { written = frame; flushed = length frame; outcomes = [] }

writes_frame : write_frame (codes "{}") fresh_writer ≡ some (written, ok tt)
unfolding write_frame append_usize digits
writes_frame = refl

-- The frame is cut inside its header, and the bytes behind it come in a chunk with its end.
abbrev chunks : List Bytes
chunks = codes "Content-Le" ∷ codes "ngth: 2\r\n\r\n{" ∷ codes "}Con" ∷ []

read_frame-write_frame_example :
    (left : List Bytes) × (read_frame plain (record { chunks = chunks; ending = none })
      ≡ ok (codes "{}", record { chunks = left; ending = none }))
    × (concat left ≡ codes "Con")
    × IsLive left
read_frame-write_frame_example =
    read_frame-write_frame plain none (codes "{}") (codes "Con") chunks written (omega arith)
      writes_frame (omega arith, (omega arith, (omega arith, tt))) refl

abbrev reader : Reader
reader = record { chunks = chunks; ending = none }

abbrev after : Reader
after = record { chunks = codes "Con" ∷ []; ending = none }

write_frame_total_example :
    (w : Writer) × (write_frame (codes "{}") fresh_writer ≡ some (w, ok tt))
    × IsFrame (codes "{}") w.written
    × (w.flushed ≡ length w.written)
write_frame_total_example = write_frame_total (codes "{}") (omega arith)
