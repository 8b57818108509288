-- ===== src/Rpc/Frame/Progress.antt =====
-- A frame takes at least one byte from the stream.
use corsa_bind.Common.{
  ℕ, zero, suc, ◌+◌, ◌≤◌, ◌<◌, Option, none, some, List, [], ◌∷◌, Bytes, length, drop, concat, ltb,
  ◌≡◌, ap, arith, length-append, inl, inr, Bool-cases, Option-cases,
}
use corsa_bind.Core.Error.{IoError, ok}
use corsa_bind.Io.Stream.{Reader, unread, put_back, concat-put_back}
use corsa_bind.Rpc.Frame.{max_header_bytes, read_header, read_frame}
use corsa_bind.Rpc.Frame.Header.{Search, header_end}
use corsa_bind.Rpc.Frame.Safety.{read_header-eq-ok, read_frame-steps, read_chunks-eq-ok}

length-drop-le : (k : ℕ) (bs : Bytes) → length (drop k bs) ≤ length bs
length-drop-le zero bs = omega arith
length-drop-le (suc k) [] = omega arith
length-drop-le (suc k) (b ∷ bs) = omega (arith, length-drop-le k bs)

length-drop-lt : (k : ℕ) (b : ℕ) (bs : Bytes) → 0 < k → length (drop k (b ∷ bs)) < length (b ∷ bs)
length-drop-lt zero b bs h = absurd (omega arith)
length-drop-lt (suc k) b bs h = omega (arith, length-drop-le k bs)

module _ (searches : Search) where
  read_header-lt :
      (cs : List Bytes) (e : Option IoError) (n : ℕ) (left : List Bytes)
      → read_header searches [] cs e ≡ ok (n, left)
      → length (concat left) < length (concat cs)
  unfolding read_header
  read_header-lt [] none n left h = cc
  read_header-lt [] (some e) n left h = cc
  read_header-lt ([] ∷ cs) e n left h = cc
  read_header-lt ((b ∷ bs) ∷ cs) e n left h =
      elim (Option-cases (searches.memmem (b ∷ bs) header_end)) [
        | inl m ↦ elim (Bool-cases (ltb max_header_bytes (length (b ∷ bs)))) [
          | inl big ↦ cc (rw (big, read_header) at (rw (m, read_header) at h))
          | inr small ↦
              let (used, u) = read_header-eq-ok searches cs (b ∷ bs) e n left (ground arith) in
              omega (
                arith,
                ap length u,
                length-append used (concat left),
                length-append (b ∷ bs) (concat cs),
              )
        ]
        | inr (i, m) ↦
            let q : put_back (drop (i + 4) (b ∷ bs)) cs ≡ left = ground arith in
            omega (
              arith,
              ap (λ (x : List Bytes). length (concat x)) q,
              ap length (concat-put_back (drop (i + 4) (b ∷ bs)) cs),
              length-append (drop (i + 4) (b ∷ bs)) (concat cs),
              length-append (b ∷ bs) (concat cs),
              length-drop-lt (i + 4) b bs (omega arith),
            )
      ]

  -- A frame that was read took at least one byte.
  pub read_frame-lt :
      (r r' : Reader) (body : Bytes)
      → read_frame searches r ≡ ok (body, r')
      → length (unread r') < length (unread r)
  read_frame-lt r r' body h =
      let (n, mid, f, le, g, same) = read_frame-steps searches r r' body h in
      let (l, a) = read_chunks-eq-ok n mid r.ending body r'.chunks g in
      omega (
        arith,
        read_header-lt r.chunks r.ending n mid f,
        ap length a,
        length-append body (unread r'),
      )
