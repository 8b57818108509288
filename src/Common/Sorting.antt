-- ===== src/Common/Sorting.antt =====
-- Filters and the stable sort of slices by a Boolean comparison, with `partition_point`.
use Prim.Native.Nat.{ℕ, zero, suc, ◌≤◌}
use corsa_bind.Common.Lists.{All, All-mono, length, take, drop, get_elem?}
use corsa_bind.Common.Tests.{if◌then◌else◌, Bool-cases}
use corsa_bind.Common.Equality.{Eq, ◌==◌}
use corsa_bind.Common.Assoc.{elem, IsDistinct}
use mathlib.Core.Bool.{Bool, true, false, ◌&&◌}
use mathlib.Core.List.{List, [], ◌∷◌, ◌++◌, Perm}
use mathlib.Core.List.Perm
use mathlib.Core.Logic.{inl, inr}
use mathlib.Core.Option.{some, some-injective}
use mathlib.Core.Path.{◌≡◌, refl, ap, sym, ◌∙◌}
use native.Mathlib.Omega.{arith}

module _ {ℓ} {A : Type ℓ} where
  -- `iter().filter(p).collect()`
  abbrev pub filter : (A → Bool) → List A → List A
  filter p [] = []
  filter p (x ∷ xs) = if p x then x ∷ filter p xs else filter p xs

  -- `iter().any(p)`
  abbrev pub any : (A → Bool) → List A → Bool
  any p [] = false
  any p (x ∷ xs) = if p x then true else any p xs

  -- `partition_point(p)`: how many elements stand before the first that fails `p`.
  abbrev pub partition_point : (A → Bool) → List A → ℕ
  partition_point p [] = 0
  partition_point p (x ∷ xs) = if p x then suc (partition_point p xs) else 0

  pub filter-append :
      (p : A → Bool) (xs ys : List A) → filter p (xs ++ ys) ≡ filter p xs ++ filter p ys
  filter-append p [] ys = refl
  filter-append p (x ∷ xs) ys = ground (arith, filter-append p xs ys)

  pub filter_none : (p : A → Bool) (xs : List A) → All (λ x. p x ≡ false) xs → filter p xs ≡ []
  filter_none p [] h = refl
  filter_none p (x ∷ xs) h = ground (arith, h.0, filter_none p xs h.1)

  pub filter_all : (p : A → Bool) (xs : List A) → All (λ x. p x ≡ true) xs → filter p xs ≡ xs
  filter_all p [] h = refl
  filter_all p (x ∷ xs) h = ground (arith, h.0, filter_all p xs h.1)

  pub filter_congr :
      (p q : A → Bool) (xs : List A) → All (λ x. p x ≡ q x) xs → filter p xs ≡ filter q xs
  filter_congr p q [] h = refl
  filter_congr p q (x ∷ xs) h = ground (arith, h.0, filter_congr p q xs h.1)

  pub All-filter {κ} :
      (P : A → Type κ) (p : A → Bool) (xs : List A)
      → All P xs
      → All (λ x. P x × (p x ≡ true)) (filter p xs)
  All-filter P p [] h = tt
  All-filter P p (x ∷ xs) h = elim (Bool-cases (p x)) [
    | inl e ↦ rw e ((h.0, e), All-filter P p xs h.1)
    | inr e ↦ rw e (All-filter P p xs h.1)
  ]

  pub any-filter : (p q : A → Bool) (xs : List A) → any p (filter q xs) ≡ any (λ x. q x && p x) xs
  any-filter p q [] = refl
  any-filter p q (x ∷ xs) = ground (arith, any-filter p q xs)

  pub any-of_get_elem? :
      (p : A → Bool) (xs : List A) (i : ℕ) (x : A)
      → get_elem? xs i ≡ some x
      → p x ≡ true
      → any p xs ≡ true
  any-of_get_elem? p [] i x h e = absurd (cc)
  any-of_get_elem? p (y ∷ ys) zero x h e = ground (arith, ap p (some-injective _ _ h))
  any-of_get_elem? p (y ∷ ys) (suc i) x h e = ground (arith, any-of_get_elem? p ys i x h e)

  pub any-drop : (p : A → Bool) (n : ℕ) (xs : List A) → any p (drop n xs) ≡ true → any p xs ≡ true
  any-drop p zero xs h = h
  any-drop p (suc n) [] h = absurd (cc)
  any-drop p (suc n) (x ∷ xs) h = ground (arith, any-drop p n xs h)

  pub any_congr : (p q : A → Bool) (xs : List A) → ((x : A) → p x ≡ q x) → any p xs ≡ any q xs
  any_congr p q [] f = refl
  any_congr p q (x ∷ xs) f = ground (arith, f x, any_congr p q xs f)

  pub partition_point-le : (p : A → Bool) (xs : List A) → partition_point p xs ≤ length xs
  partition_point-le p [] = omega arith
  partition_point-le p (x ∷ xs) = ground (arith, partition_point-le p xs)

  pub partition_point_mono :
      (p q : A → Bool) (xs : List A)
      → ((x : A) → p x ≡ true → q x ≡ true)
      → partition_point p xs ≤ partition_point q xs
  partition_point_mono p q [] f = omega arith
  partition_point_mono p q (x ∷ xs) f = ground (arith, f x, partition_point_mono p q xs f)

  pub All-take-partition_point :
      (p : A → Bool) (xs : List A) → All (λ x. p x ≡ true) (take (partition_point p xs) xs)
  All-take-partition_point p [] = tt
  All-take-partition_point p (x ∷ xs) = ground (arith, All-take-partition_point p xs)

module _ {ℓ} {A : Type ℓ} (le : A → A → Bool) where
  -- `sort_by`, which is stable: an element stays before those equal to it.
  abbrev pub insert_by : A → List A → List A
  insert_by x [] = x ∷ []
  insert_by x (y ∷ ys) = if le x y then x ∷ y ∷ ys else y ∷ insert_by x ys

  abbrev pub sort_by : List A → List A
  sort_by [] = []
  sort_by (x ∷ xs) = insert_by x (sort_by xs)

  abbrev pub IsSorted : List A → Type 0
  IsSorted [] = Unit
  IsSorted (x ∷ xs) = All (λ y. le x y ≡ true) xs × IsSorted xs

  pub insert_by-Perm : (x : A) (xs : List A) → Perm (insert_by x xs) (x ∷ xs)
  insert_by-Perm x [] = Perm.refl _
  insert_by-Perm x (y ∷ ys) = elim (Bool-cases (le x y)) [
    | inl h ↦ rw h (Perm.refl _)
    | inr h ↦ rw h (Perm.trans (Perm.cons y (insert_by-Perm x ys)) (Perm.swap x y ys))
  ]

  pub sort_by-Perm : (xs : List A) → Perm (sort_by xs) xs
  sort_by-Perm [] = Perm.refl _
  sort_by-Perm (x ∷ xs) = Perm.trans (insert_by-Perm x (sort_by xs)) (Perm.cons x (sort_by-Perm xs))

  pub All-insert_by {κ} :
      (P : A → Type κ) (x : A) (xs : List A) → P x → All P xs → All P (insert_by x xs)
  All-insert_by P x [] px h = (px, tt)
  All-insert_by P x (y ∷ ys) px h = elim (Bool-cases (le x y)) [
    | inl e ↦ rw e (px, h)
    | inr e ↦ rw e (h.0, All-insert_by P x ys px h.1)
  ]

  pub All-sort_by {κ} : (P : A → Type κ) (xs : List A) → All P xs → All P (sort_by xs)
  All-sort_by P [] h = tt
  All-sort_by P (x ∷ xs) h = All-insert_by P x (sort_by xs) h.0 (All-sort_by P xs h.1)

  any-insert_by :
      (p : A → Bool) (x : A) (xs : List A)
      → any p (insert_by x xs) ≡ (if p x then true else any p xs)
  any-insert_by p x [] = refl
  any-insert_by p x (y ∷ ys) = ground (arith, any-insert_by p x ys)

  pub any-sort_by : (p : A → Bool) (xs : List A) → any p (sort_by xs) ≡ any p xs
  any-sort_by p [] = refl
  any-sort_by p (x ∷ xs) = ground (arith, any-insert_by p x (sort_by xs), any-sort_by p xs)

  module _ (total : (x y : A) → le x y ≡ false → le y x ≡ true)
      (trans : (x y z : A) → le x y ≡ true → le y z ≡ true → le x z ≡ true) where
    insert_by-IsSorted : (x : A) (xs : List A) → IsSorted xs → IsSorted (insert_by x xs)
    insert_by-IsSorted x [] s = (tt, tt)
    insert_by-IsSorted x (y ∷ ys) s = elim (Bool-cases (le x y)) [
      | inl h ↦ rw h ((h, All-mono _ _ (λ z. trans x y z h) ys s.0), s)
      | inr h ↦
          rw h
            (All-insert_by (λ z. le y z ≡ true) x ys (total x y h) s.0, insert_by-IsSorted x ys s.1)
    ]

    pub sort_by-IsSorted : (xs : List A) → IsSorted (sort_by xs)
    sort_by-IsSorted [] = tt
    sort_by-IsSorted (x ∷ xs) = insert_by-IsSorted x (sort_by xs) (sort_by-IsSorted xs)

  -- A test that is passed by whatever stands below an element that passes it.
  module _ (p : A → Bool) (down : (x y : A) → le x y ≡ true → p y ≡ true → p x ≡ true) where
    fails_after :
        (x : A) (xs : List A)
        → All (λ y. le x y ≡ true) xs
        → p x ≡ false
        → All (λ y. p y ≡ false) xs
    fails_after x [] h e = tt
    fails_after x (y ∷ ys) h e = (ground (arith, down x y h.0), fails_after x ys h.1 e)

    pub All-drop-partition_point :
        (xs : List A) → IsSorted xs → All (λ x. p x ≡ false) (drop (partition_point p xs) xs)
    All-drop-partition_point [] s = tt
    All-drop-partition_point (x ∷ xs) s = elim (Bool-cases (p x)) [
      | inl h ↦ rw h (All-drop-partition_point xs s.1)
      | inr h ↦ rw h (h, fails_after x xs s.0 h)
    ]

    -- Before its partition point, a sorted list passes the test; behind it, it fails.
    pub filter-take-partition_point :
        (q : A → Bool) (xs : List A)
        → IsSorted xs
        → filter q (take (partition_point p xs) xs) ≡ filter (λ x. p x && q x) xs
    filter-take-partition_point q [] s = refl
    filter-take-partition_point q (x ∷ xs) s = elim (Bool-cases (p x)) [
      | inl h ↦ rw h (ground (arith, filter-take-partition_point q xs s.1))
      | inr h ↦
          let rest =
            filter_none (λ y. p y && q y) xs
              (All-mono _ _ (λ y e. ground arith) xs (fails_after x xs s.0 h)) in
          rw h (sym rest)
    ]

module _ {ℓ} {K : Type ℓ} ⦃e : Eq K⦄ (le : K → K → Bool) where
  elem-any : (k : K) (xs : List K) → elem k xs ≡ any (λ x. x == k) xs
  elem-any k [] = refl
  elem-any k (x ∷ xs) = ground (arith, elem-any k xs)

  pub elem-sort_by : (k : K) (xs : List K) → elem k (sort_by le xs) ≡ elem k xs
  elem-sort_by k xs =
      elem-any k (sort_by le xs) ∙ any-sort_by le (λ x. x == k) xs ∙ sym (elem-any k xs)

  IsDistinct-insert_by :
      (x : K) (xs : List K) → elem x xs ≡ false → IsDistinct xs → IsDistinct (insert_by le x xs)
  IsDistinct-insert_by x [] h d = (refl, tt)
  IsDistinct-insert_by x (y ∷ ys) h d = elim (Bool-cases (le x y)) [
    | inl q ↦ rw q (h, d)
    | inr q ↦ rw q (
      elem-any y (insert_by le x ys)
          ∙ any-insert_by le (λ z. z == y) x ys
          ∙ ground (arith, elem-any y ys, e.beq_iff x y, e.beq_iff y x),
      IsDistinct-insert_by x ys (ground arith) d.1,
    )
  ]

  pub IsDistinct-sort_by : (xs : List K) → IsDistinct xs → IsDistinct (sort_by le xs)
  IsDistinct-sort_by [] d = tt
  IsDistinct-sort_by (x ∷ xs) d =
      IsDistinct-insert_by x (sort_by le xs) (elem-sort_by x xs ∙ d.0) (IsDistinct-sort_by xs d.1)
