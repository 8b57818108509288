-- ===== src/Common/Arrays.antt =====
-- Arrays as lists: stores, slices, and reads and stores that fail out of range.
use Prim.Native.Nat.{ℕ, zero, suc, ◌+◌, ◌≤◌, ◌<◌}
use corsa_bind.Common.Lists.{All, length, take, drop, get_elem?}
use corsa_bind.Common.Tests.{ltb, if◌then◌else◌}
use mathlib.Core.List.{List, [], ◌∷◌, ◌++◌}
use mathlib.Core.Logic.{◌≢◌}
use mathlib.Core.Option.{Option, none, some, some-injective}
use mathlib.Core.Path.{◌≡◌, refl, ap, sym, ◌∙◌, subst}
use native.Mathlib.Omega.{arith}

infixl 5 ◌and_then◌
-- The `?` operator on options.
abbrev pub ◌and_then◌ {ℓ κ} : {A : Type ℓ} {B : Type κ} → Option A → (A → Option B) → Option B
none and_then next = none
some a and_then next = next a

pub and_then-eq-some {ℓ κ} :
    {A : Type ℓ} {B : Type κ} (o : Option A) (next : A → Option B) {b : B}
    → (o and_then next) ≡ some b
    → (a : A) × (o ≡ some a) × (next a ≡ some b)
and_then-eq-some none next h = absurd (cc)
and_then-eq-some (some a) next h = (a, refl, h)

module _ {ℓ} {A : Type ℓ} where
  abbrev pub set : List A → ℕ → A → List A
  set [] i v = []
  set (x ∷ xs) zero v = v ∷ xs
  set (x ∷ xs) (suc i) v = x ∷ set xs i v

  abbrev pub replicate : ℕ → A → List A
  replicate zero v = []
  replicate (suc n) v = v ∷ replicate n v

  -- `array[i] = v`, which panics out of range.
  abbrev pub store : List A → ℕ → A → Option (List A)
  store xs i v = if ltb i (length xs) then some (set xs i v) else none

  -- A read with a default, for statements.
  abbrev pub get_or : List A → ℕ → A → A
  get_or [] i d = d
  get_or (x ∷ xs) zero d = x
  get_or (x ∷ xs) (suc i) d = get_or xs i d

  -- `array[lo..hi]`
  abbrev pub slice : List A → ℕ → ℕ → List A
  slice xs lo hi = drop lo (take hi xs)

  pub length-set : (xs : List A) (i : ℕ) (v : A) → length (set xs i v) ≡ length xs
  length-set [] i v = refl
  length-set (x ∷ xs) zero v = refl
  length-set (x ∷ xs) (suc i) v = ap suc (length-set xs i v)

  pub length-replicate : (n : ℕ) (v : A) → length (replicate n v) ≡ n
  length-replicate zero v = refl
  length-replicate (suc n) v = ap suc (length-replicate n v)

  pub get_or-replicate : (n i : ℕ) (v : A) → get_or (replicate n v) i v ≡ v
  get_or-replicate zero i v = refl
  get_or-replicate (suc n) zero v = refl
  get_or-replicate (suc n) (suc i) v = get_or-replicate n i v

  pub get_elem?-eq-get_or :
      (xs : List A) (i : ℕ) (d : A) → i < length xs → get_elem? xs i ≡ some (get_or xs i d)
  get_elem?-eq-get_or [] i d h = elim h [ ]
  get_elem?-eq-get_or (x ∷ xs) zero d h = refl
  get_elem?-eq-get_or (x ∷ xs) (suc i) d h = get_elem?-eq-get_or xs i d (omega arith)

  pub get_or-set_self :
      (xs : List A) (i : ℕ) (v d : A) → i < length xs → get_or (set xs i v) i d ≡ v
  get_or-set_self [] i v d h = elim h [ ]
  get_or-set_self (x ∷ xs) zero v d h = refl
  get_or-set_self (x ∷ xs) (suc i) v d h = get_or-set_self xs i v d (omega arith)

  pub get_or-set_ne :
      (xs : List A) (i j : ℕ) (v d : A) → j ≢ i → get_or (set xs i v) j d ≡ get_or xs j d
  get_or-set_ne [] i j v d h = refl
  get_or-set_ne (x ∷ xs) zero zero v d h = absurd (h refl)
  get_or-set_ne (x ∷ xs) zero (suc j) v d h = refl
  get_or-set_ne (x ∷ xs) (suc i) zero v d h = refl
  get_or-set_ne (x ∷ xs) (suc i) (suc j) v d h = get_or-set_ne xs i j v d (omega arith)

  pub store_of_lt : (xs : List A) (i : ℕ) (v : A) → i < length xs → store xs i v ≡ some (set xs i v)
  store_of_lt xs i v h = ground arith

  pub get_elem?-drop : (a i : ℕ) (xs : List A) → get_elem? (drop a xs) i ≡ get_elem? xs (a + i)
  get_elem?-drop zero i xs = ap (get_elem? xs) (omega arith)
  get_elem?-drop (suc a) i [] = refl
  get_elem?-drop (suc a) i (x ∷ xs) =
      let e : suc (a + i) ≡ suc a + i = omega arith in
      get_elem?-drop a i xs ∙ ap (get_elem? (x ∷ xs)) e

  drop-nil : (n : ℕ) → drop {A = A} n [] ≡ []
  drop-nil zero = refl
  drop-nil (suc n) = refl

  pub drop-drop : (a b : ℕ) (xs : List A) → drop b (drop a xs) ≡ drop (a + b) xs
  drop-drop zero b xs = ap (λ n. drop n xs) (omega arith)
  drop-drop (suc a) b [] = drop-nil b ∙ sym (drop-nil (suc a + b))
  drop-drop (suc a) b (x ∷ xs) =
      let e : suc (a + b) ≡ suc a + b = omega arith in
      drop-drop a b xs ∙ ap (λ n. drop n (x ∷ xs)) e

  pub take-nil : (n : ℕ) → take {A = A} n [] ≡ []
  take-nil zero = refl
  take-nil (suc n) = refl

  pub take-add : (a b : ℕ) (xs : List A) → take (a + b) xs ≡ take a xs ++ take b (drop a xs)
  take-add zero b xs = ap (λ n. take n xs) (omega arith)
  take-add (suc a) b [] = take-nil (suc a + b) ∙ sym (take-nil b)
  take-add (suc a) b (x ∷ xs) =
      let e : suc a + b ≡ suc (a + b) = omega arith in
      ap (λ n. take n (x ∷ xs)) e ∙ ap (◌∷◌ x) (take-add a b xs)

  pub take-take : (n m : ℕ) (xs : List A) → n ≤ m → take n (take m xs) ≡ take n xs
  take-take zero m xs h = refl
  take-take (suc n) zero xs h = elim h [ ]
  take-take (suc n) (suc m) [] h = refl
  take-take (suc n) (suc m) (x ∷ xs) h = ap (◌∷◌ x) (take-take n m xs (omega arith))

  pub take_all : (n : ℕ) (xs : List A) → length xs ≤ n → take n xs ≡ xs
  take_all zero [] h = refl
  take_all zero (x ∷ xs) h = elim h [ ]
  take_all (suc n) [] h = refl
  take_all (suc n) (x ∷ xs) h = ap (◌∷◌ x) (take_all n xs (omega arith))

  pub drop_all : (n : ℕ) (xs : List A) → length xs ≤ n → drop n xs ≡ []
  drop_all zero [] h = refl
  drop_all zero (x ∷ xs) h = elim h [ ]
  drop_all (suc n) [] h = refl
  drop_all (suc n) (x ∷ xs) h = drop_all n xs (omega arith)

  pub take_one :
      (i : ℕ) (x : A) (xs : List A) → get_elem? xs i ≡ some x → take 1 (drop i xs) ≡ x ∷ []
  take_one i x [] h = absurd (cc)
  take_one zero x (y ∷ ys) h = ground arith
  take_one (suc i) x (y ∷ ys) h = take_one i x ys h

  pub get_elem?-take : (n i : ℕ) (xs : List A) → i < n → get_elem? (take n xs) i ≡ get_elem? xs i
  get_elem?-take zero i xs h = elim h [ ]
  get_elem?-take (suc n) i [] h = refl
  get_elem?-take (suc n) zero (x ∷ xs) h = refl
  get_elem?-take (suc n) (suc i) (x ∷ xs) h = get_elem?-take n i xs (omega arith)

  pub get_elem?-some-lt : (xs : List A) (i : ℕ) (x : A) → get_elem? xs i ≡ some x → i < length xs
  get_elem?-some-lt [] i x h = absurd (cc)
  get_elem?-some-lt (y ∷ ys) zero x h = omega arith
  get_elem?-some-lt (y ∷ ys) (suc i) x h = omega (arith, get_elem?-some-lt ys i x h)

module _ {ℓ} {A : Type ℓ} where
  pub get_elem?-take-some :
      (n i : ℕ) (xs : List A) (x : A)
      → get_elem? (take n xs) i ≡ some x
      → (i < n) × (get_elem? xs i ≡ some x)
  get_elem?-take-some zero i xs x h = absurd (cc)
  get_elem?-take-some (suc n) i [] x h = absurd (cc)
  get_elem?-take-some (suc n) zero (y ∷ ys) x h = (omega arith, h)
  get_elem?-take-some (suc n) (suc i) (y ∷ ys) x h =
      let (lt, e) = get_elem?-take-some n i ys x h in (omega arith, e)

module _ {ℓ κ} {A : Type ℓ} (P : A → Type κ) where
  pub All-get_elem? : (xs : List A) (i : ℕ) (x : A) → All P xs → get_elem? xs i ≡ some x → P x
  All-get_elem? [] i x a h = absurd (cc)
  All-get_elem? (y ∷ ys) zero x a h = subst P (some-injective _ _ h) a.0
  All-get_elem? (y ∷ ys) (suc i) x a h = All-get_elem? ys i x a.1 h

  pub All-of_get_elem? :
      (xs : List A) → ((i : ℕ) (x : A) → get_elem? xs i ≡ some x → P x) → All P xs
  All-of_get_elem? [] f = tt
  All-of_get_elem? (x ∷ xs) f = (f 0 x refl, All-of_get_elem? xs (λ i. f (suc i)))
