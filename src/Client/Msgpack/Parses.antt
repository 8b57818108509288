-- ===== src/Client/Msgpack/Parses.antt =====
-- What a reader of the msgpack transport does in front of any rest, and the rules for its parts.
use corsa_bind.Common.{
  ℕ, Option, List, [], ◌∷◌, ◌++◌, Bytes, length, concat, ◌≡◌, refl, ap, ◌∙◌, append_assoc,
}
use corsa_bind.Core.Error.{IoError, Result, ok, err}
use corsa_bind.Io.Stream.{Reader, IsLive, read_chunks-append}
use corsa_bind.Client.Msgpack.{Reads, ◌>>=◌, pure, read_exact, read_byte, first_byte}

-- From any live stream that begins with `bytes`, `m` returns `a` and leaves what is behind them.
pub record Parses {A : Type 0} (m : Reads A) (bytes : Bytes) (a : A) : Type 0 where
  pub parses :
      (rest : Bytes) (cs : List Bytes) (e : Option IoError)
      → IsLive cs
      → concat cs ≡ bytes ++ rest
      → (left : List Bytes) × (m (record { chunks = cs; ending = e })
          ≡ ok (a, record { chunks = left; ending = e }))
        × (concat left ≡ rest)
        × IsLive left

bind_ok :
    {A B : Type 0} (m : Reads A) (f : A → Reads B) (r r' : Reader) (a : A)
    → m r ≡ ok (a, r')
    → (m >>= f) r ≡ f a r'
bind_ok {A} {B} m f r r' a = ap (λ (x : Result (A × Reader)).
    let y : Result (B × Reader) = elim x [ ok (a, r') ↦ f a r' | err e ↦ err e ] in y)

module _ {A B : Type 0} where
  pub Parses-bind :
      (m : Reads A) (f : A → Reads B) (xs ys : Bytes) (a : A) (b : B)
      → Parses m xs a
      → Parses (f a) ys b
      → Parses (m >>= f) (xs ++ ys) b
  Parses-bind m f xs ys a b p q = record {
    parses = λ rest cs e live h.
        let (mid, r1, c1, l1) = p.parses (ys ++ rest) cs e live (h ∙ append_assoc xs ys rest) in
        let (left, r2, c2, l2) = q.parses rest mid e l1 c1 in
        (left, bind_ok m f _ _ a r1 ∙ r2, c2, l2);
  }

pub Parses-pure : {A : Type 0} (a : A) → Parses (pure a) [] a
Parses-pure a = record { parses = λ rest cs e live h. (cs, refl, h, live) }

pub Parses-read_exact : (bytes : Bytes) → Parses (read_exact (length bytes)) bytes bytes
Parses-read_exact bytes = record {
  parses = λ rest cs e live h.
      let (left, r, c, l) = read_chunks-append bytes rest cs e live h in
      (left, unfold read_exact in rw (r, read_exact) refl, c, l);
}

pub Parses-read_byte : (b : ℕ) → Parses read_byte (b ∷ []) b
Parses-read_byte b =
    Parses-bind (read_exact 1) (λ bs. pure (first_byte bs)) (b ∷ []) [] (b ∷ []) b
      (Parses-read_exact (b ∷ [])) (Parses-pure b)
