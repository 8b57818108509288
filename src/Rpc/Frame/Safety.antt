-- ===== src/Rpc/Frame/Safety.antt =====
-- What `read_frame` does with any stream: what a success consumed, and what a stream that stops
-- inside a frame gives.
use corsa_bind.Common.{
  ℕ, ◌+◌, ◌-◌, ◌≤◌, ◌<◌, Option, none, some, List, [], ◌∷◌, ◌++◌, Bytes, length, take, drop, concat,
  ltb, leb, ◌≡◌, sym, ap, ◌∙◌, arith, append_assoc, take-append-drop, length-take, length-append,
  inl, inr, Bool-cases, Option-cases,
}
use corsa_bind.Core.Error.{IoError, Result, ok, >>=-eq-ok, Result-cases}
use corsa_bind.Rpc.Frame.Header.{Search, header_end}
use corsa_bind.Io.Stream.{Reader, put_back, concat-put_back, read_chunks}
use corsa_bind.Rpc.Frame.{max_header_bytes, max_body_bytes, read_header, read_frame}

read_chunks_short :
    (n : ℕ) (c : Bytes) (cs : List Bytes)
    → n ≤ length c
    → (length (take n c) ≡ n) × (take n c ++ concat (put_back (drop n c) cs) ≡ c ++ concat cs)
read_chunks_short n c cs h = (
  length-take n c h,
  ap (λ (b : Bytes). take n c ++ b) (concat-put_back (drop n c) cs)
      ∙ sym (append_assoc (take n c) (drop n c) (concat cs))
      ∙ ap (λ (b : Bytes). b ++ concat cs) (take-append-drop n c),
)

read_chunks_join :
    (n : ℕ) (c got bs : Bytes) (cs left left' : List Bytes)
    → length c < n
    → (length got ≡ n - length c) × (got ++ concat left ≡ concat cs)
    → ◌≡◌ {A = Result (Bytes × List Bytes)} (ok (c ++ got, left)) (ok (bs, left'))
    → (length bs ≡ n) × (bs ++ concat left' ≡ c ++ concat cs)
read_chunks_join n c got bs cs left left' lt (l, a) e =
    let p : c ++ got ≡ bs = cc in
    let q : left ≡ left' = cc in
    rw (← p, ← q)
      (omega (arith, length-append c got), append_assoc c got (concat left) ∙ ap (◌++◌ c) a)

-- An exact read returns as many bytes as it was asked for, and they were the next of the stream.
pub read_chunks-eq-ok :
    (n : ℕ) (cs : List Bytes) (e : Option IoError) (bs : Bytes) (left : List Bytes)
    → read_chunks n cs e ≡ ok (bs, left)
    → (length bs ≡ n) × (bs ++ concat left ≡ concat cs)
unfolding read_chunks
read_chunks-eq-ok n [] e bs left h = ground arith
read_chunks-eq-ok n ([] ∷ cs) e bs left h = ground arith
read_chunks-eq-ok n ((b ∷ c) ∷ cs) e bs left h = elim (Bool-cases (leb n (length (b ∷ c)))) [
  | inl le ↦ ground (arith, read_chunks_short n (b ∷ c) cs)
  | inr gt ↦
      let ((got, mid), r, s) =
        >>=-eq-ok (read_chunks (n - length (b ∷ c)) cs e)
          (λ (x : Bytes × List Bytes). ok ((b ∷ c) ++ x.0, x.1)) (rw gt at h) in
      read_chunks_join n (b ∷ c) got bs cs mid left (ground arith)
        (read_chunks-eq-ok (n - length (b ∷ c)) cs e got mid r) s
]

module _ (searches : Search) where
  pub read_header-eq-ok :
      (cs : List Bytes) (header : Bytes) (e : Option IoError) (n : ℕ) (left : List Bytes)
      → read_header searches header cs e ≡ ok (n, left)
      → (used : Bytes) × (used ++ concat left ≡ concat cs)
  unfolding read_header
  read_header-eq-ok [] header none n left h = cc
  read_header-eq-ok [] header (some e) n left h = cc
  read_header-eq-ok ([] ∷ cs) header e n left h = cc
  read_header-eq-ok ((b ∷ bs) ∷ cs) header e n left h =
      elim (Option-cases (searches.memmem (header ++ b ∷ bs) header_end)) [
        | inl m ↦ elim (Bool-cases (ltb max_header_bytes (length (header ++ b ∷ bs)))) [
          | inl big ↦ cc (rw (big, read_header) at (rw (m, read_header) at h))
          | inr small ↦
              let (used, u) = read_header-eq-ok cs (header ++ b ∷ bs) e n left (ground arith) in
              ((b ∷ bs) ++ used, append_assoc (b ∷ bs) used (concat left) ∙ ap (◌++◌ (b ∷ bs)) u)
        ]
        | inr (i, m) ↦
            let k = i + 4 - length header in
            let q : put_back (drop k (b ∷ bs)) cs ≡ left = ground arith in
            (
              take k (b ∷ bs),
              rw (← q) (
                  ap (◌++◌ (take k (b ∷ bs))) (concat-put_back (drop k (b ∷ bs)) cs)
                  ∙ sym (append_assoc (take k (b ∷ bs)) (drop k (b ∷ bs)) (concat cs))
                  ∙ ap (λ (x : Bytes). x ++ concat cs) (take-append-drop k (b ∷ bs))),
            )
      ]

  pub read_frame-steps :
      (r r' : Reader) (body : Bytes)
      → read_frame searches r ≡ ok (body, r')
      → (n : ℕ) × (mid : List Bytes) × (read_header searches [] r.chunks r.ending ≡ ok (n, mid))
        × (n ≤ max_body_bytes)
        × (read_chunks n mid r.ending ≡ ok (body, r'.chunks))
        × (r'.ending ≡ r.ending)
  unfolding read_frame
  read_frame-steps r r' body h = elim (Result-cases (read_header searches [] r.chunks r.ending)) [
    | inr (e, f) ↦ cc (rw (f, read_frame) at h)
    | inl ((n, mid), f) ↦ elim (Result-cases (read_chunks n mid r.ending)) [
      | inr (e, g) ↦ ground arith
      | inl ((bs, left), g) ↦ (n, mid, f, ground arith, ground arith, ground arith)
    ]
  ]
