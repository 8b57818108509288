-- ===== src/Io/Stream.antt =====
-- `std::io` as the transports use it. A reader holds the chunks that successive `fill_buf` calls return, each
-- what the transport delivered at once, and how the transport ends. A writer holds what was written,
-- how much of it was flushed, and the outcomes of the calls to come (none listed: all succeed).
use corsa_bind.Common.{
  ℕ, ◌+◌, ◌-◌, ◌≤◌, ◌≡◌, refl, Option, none, some, List, [], ◌∷◌, ◌++◌, Bytes, length, take, drop,
  take-append, drop-append, append_overlap, length-append, ap, sym, ◌∙◌, ◌<◌, concat, append-nil,
  append_assoc, leb, if◌then◌else◌, arith, All,
}
use native.Mathlib.Decide.{dec_le}
use corsa_bind.Core.Error.{IoError, unexpected_eof, CorsaError, io, Result, ok, err, ◌>>=◌}
use corsa_bind.Core.Text.{literal}

pub record Reader : Type 0 where
  pub chunks : List Bytes
  pub ending : Option IoError

-- All the bytes that are still to be read.
abbrev pub unread : Reader → Bytes
unread r = concat r.chunks

-- `BufRead::fill_buf`: the bytes at hand, none of them at the end of the stream, or its error.
abbrev pub fill : List Bytes → Option IoError → Result Bytes
fill [] none = ok []
fill [] (some e) = err (io e)
fill (c ∷ cs) e = ok c

abbrev pub fill_buf : Reader → Result Bytes
fill_buf r = fill r.chunks r.ending

-- What is left of a chunk stays at hand.
abbrev pub put_back : Bytes → List Bytes → List Bytes
put_back [] cs = cs
put_back (b ∷ bs) cs = (b ∷ bs) ∷ cs

-- `BufRead::consume`, of at most the bytes at hand.
abbrev pub consume_chunks : ℕ → List Bytes → List Bytes
consume_chunks n [] = []
consume_chunks n (c ∷ cs) = put_back (drop n c) cs

abbrev pub consume : ℕ → Reader → Reader
consume n r = record r { chunks = consume_chunks n r.chunks }

-- `Read::read_exact`, by the chunks it takes.
abbrev eof_error : Option IoError → CorsaError
eof_error none =
    io (record { kind = unexpected_eof; display = literal "failed to fill whole buffer" })
eof_error (some e) = io e

unfoldable pub read_chunks : ℕ → List Bytes → Option IoError → Result (Bytes × List Bytes)
read_chunks n [] e = if leb n 0 then ok ([], []) else err (eof_error e)
read_chunks n ([] ∷ cs) e = if leb n 0 then ok ([], cs) else err (eof_error none)
read_chunks n ((b ∷ bs) ∷ cs) e =
    let rest = read_chunks (n - length (b ∷ bs)) cs e in
    if leb n (length (b ∷ bs))
    then ok (take n (b ∷ bs), put_back (drop n (b ∷ bs)) cs)
    else rest >>= λ (got, left). ok ((b ∷ bs) ++ got, left)

abbrev pub read_exact : ℕ → Reader → Result (Bytes × Reader)
read_exact n r =
    read_chunks n r.chunks r.ending >>= λ (bs, left). ok (bs, record r { chunks = left })

pub record Writer : Type 0 where
  pub written : Bytes
  pub flushed : ℕ
  pub outcomes : List (Option IoError)

-- A call of the writer: the outcome that is due, and the writer with that outcome taken off.
abbrev due : List (Option IoError) → Option IoError
due [] = none
due (o ∷ os) = o

abbrev later : List (Option IoError) → List (Option IoError)
later [] = []
later (o ∷ os) = os

-- What writes: the writer after it, and whether it succeeded.
abbrev pub Writes : Type 0
Writes = Writer → Writer × Result (Unit {0})

-- The second when the first succeeds.
infixl 5 ◌then◌
abbrev pub ◌then◌ : Writes → Writes → Writes
◌then◌ m n w = let (w', r) = m w in elim r [ ok _ ↦ n w' | err e ↦ (w', err e) ]

-- `Write::write_all`; what a failing call may have written is taken as nothing.
abbrev pub write_all : Bytes → Writes
write_all bs w = elim (due w.outcomes) [
  | none ↦ (record w { written = w.written ++ bs; outcomes = later w.outcomes }, ok tt)
  | some e ↦ (record w { outcomes = later w.outcomes }, err (io e))
]

abbrev pub flush : Writes
flush w = elim (due w.outcomes) [
  | none ↦ (record w { flushed = length w.written; outcomes = later w.outcomes }, ok tt)
  | some e ↦ (record w { outcomes = later w.outcomes }, err (io e))
]

-- With every call succeeding, it adds these bytes to what was written.
pub record Emits (m : Writes) (bytes : Bytes) : Type 0 where
  pub emits :
      (w : Writer)
      → w.outcomes ≡ []
      → (w' : Writer) × (m w ≡ (w', ok tt)) × (w'.written ≡ w.written ++ bytes) × (w'.outcomes ≡ [])

pub write_all-Emits : (bs : Bytes) → Emits (write_all bs) bs
write_all-Emits bs = record {
  emits = λ w h. (record w { written = w.written ++ bs; outcomes = [] }, ground arith, refl, refl);
}

pub flush-Emits : Emits flush []
flush-Emits = record {
  emits = λ w h. (
    record w { flushed = length w.written; outcomes = [] },
    ground arith,
    sym (append-nil w.written),
    refl,
  );
}

pub then_ok : (m n : Writes) (w w' : Writer) → m w ≡ (w', ok tt) → (m then n) w ≡ n w'
then_ok m n w w' =
    ap (λ (p : Writer × Result (Unit {0})). elim p.1 [ ok _ ↦ n p.0 | err e ↦ (p.0, err e) ])

pub then_err :
    (m n : Writes) (w w' : Writer) (e : CorsaError) → m w ≡ (w', err e) → (m then n) w ≡ (w', err e)
then_err m n w w' e =
    ap (λ (p : Writer × Result (Unit {0})). elim p.1 [ ok _ ↦ n p.0 | err e ↦ (p.0, err e) ])

pub then-Emits :
    {m n : Writes} {xs ys : Bytes} → Emits m xs → Emits n ys → Emits (m then n) (xs ++ ys)
then-Emits {m} {n} {xs} {ys} f g = record {
  emits = λ w h.
      let (w1, e1, p1, q1) = f.emits w h in
      let (w2, e2, p2, q2) = g.emits w1 q1 in
      (
        w2,
        then_ok m n w w1 e1 ∙ e2,
        p2 ∙ ap (λ (b : Bytes). b ++ ys) p1 ∙ append_assoc w.written xs ys,
        q2,
      );
}

abbrev pub fresh_writer : Writer
fresh_writer = record { written = []; flushed = 0; outcomes = [] }

pub concat-put_back : (b : Bytes) (cs : List Bytes) → concat (put_back b cs) ≡ b ++ concat cs
concat-put_back [] cs = refl
concat-put_back (x ∷ b) cs = refl

-- A live reader's chunks hold at least one byte each.
abbrev pub IsLive : List Bytes → Type 0
IsLive = All (λ c. 1 ≤ length c)

pub put_back-IsLive : (b : Bytes) (cs : List Bytes) → IsLive cs → IsLive (put_back b cs)
put_back-IsLive [] cs h = h
put_back-IsLive (x ∷ b) cs h = (omega arith, h)

read_chunks_within :
    (n b : ℕ) (bs : Bytes) (cs : List Bytes) (e : Option IoError)
    → n ≤ length (b ∷ bs)
    → read_chunks n ((b ∷ bs) ∷ cs) e ≡ ok (take n (b ∷ bs), put_back (drop n (b ∷ bs)) cs)
unfolding read_chunks
read_chunks_within n b bs cs e h = ground arith

read_chunks_across :
    (n b : ℕ) (bs got : Bytes) (cs left : List Bytes) (e : Option IoError)
    → length (b ∷ bs) < n
    → read_chunks (n - length (b ∷ bs)) cs e ≡ ok (got, left)
    → read_chunks n ((b ∷ bs) ∷ cs) e ≡ ok ((b ∷ bs) ++ got, left)
unfolding read_chunks
read_chunks_across n b bs got cs left e h r = ground arith

pub put_back-append :
    (c want t : Bytes) (cs : List Bytes)
    → c ≡ want ++ t
    → concat (put_back (drop (length want) c) cs) ≡ t ++ concat cs
put_back-append c want t cs p = rw (p, drop-append want t) (concat-put_back t cs)

-- An exact read takes the next bytes of the stream, however they are cut into chunks.
pub read_chunks-append :
    (want rest : Bytes) (cs : List Bytes) (e : Option IoError)
    → IsLive cs
    → concat cs ≡ want ++ rest
    → (left : List Bytes) × (read_chunks (length want) cs e ≡ ok (want, left))
      × (concat left ≡ rest)
      × IsLive left
read_chunks-append [] rest [] e l h = ([], unfold read_chunks in refl, h, tt)
read_chunks-append (x ∷ want) rest [] e l h = absurd (cc)
read_chunks-append want rest ([] ∷ cs) e l h = elim l.0 [ ]
read_chunks-append want rest ((b ∷ bs) ∷ cs) e l h = elim (dec_le (length want) (length (b ∷ bs))) [
  | yes le ↦
      let (t, p, q) = append_overlap want rest (b ∷ bs) (concat cs) (sym h) le in
      (
        put_back (drop (length want) (b ∷ bs)) cs,
        read_chunks_within (length want) b bs cs e le
            ∙ ap (λ (w : Bytes). ok (w, put_back (drop (length want) (b ∷ bs)) cs))
                (ap (take (length want)) p ∙ take-append want t),
        put_back-append (b ∷ bs) want t cs p ∙ sym q,
        put_back-IsLive _ cs l.1,
      )
  | no gt ↦
      let (t, p, q) = append_overlap (b ∷ bs) (concat cs) want rest h (omega arith) in
      let n : length want ≡ length (b ∷ bs) + length t = ap length p ∙ length-append (b ∷ bs) t in
      let (left, r, u, live) = read_chunks-append t rest cs e l.1 q in
      (
        left,
        read_chunks_across (length want) b bs t cs left e (omega arith)
              (let m : length want - length (b ∷ bs) ≡ length t = omega arith in rw m r)
            ∙ ap (λ (w : Bytes). ok (w, left)) (sym p),
        u,
        live,
      )
]
