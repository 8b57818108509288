-- ===== src/Common/Assoc.antt =====
-- A hash map as an association list over keys with an equality instance. The order of the list
-- is that of insertion; no program result is read from it.
use corsa_bind.Common.Equality.{Eq, ◌==◌}
use corsa_bind.Common.Lists.{length}
use corsa_bind.Common.Tests.{if◌then◌else◌, Bool-cases}
use mathlib.Core.Logic.{inl, inr}
use mathlib.Core.Bool.{Bool, true, false}
use mathlib.Core.List.{List, [], ◌∷◌, ◌++◌}
use mathlib.Core.Option.{Option, none, some}
use mathlib.Core.Path.{◌≡◌, refl, subst, ◌∙◌}
use native.Mathlib.Omega.{arith}

module _ {ℓ κ} {K : Type ℓ} {V : Type κ} ⦃e : Eq K⦄ where
  abbrev pub lookup : K → List (K × V) → Option V
  lookup k [] = none
  lookup k ((j, v) ∷ m) = if j == k then some v else lookup k m

  abbrev pub insert : K → V → List (K × V) → List (K × V)
  insert k v [] = (k, v) ∷ []
  insert k v ((j, w) ∷ m) = if j == k then (j, v) ∷ m else (j, w) ∷ insert k v m

  abbrev pub remove : K → List (K × V) → List (K × V)
  remove k [] = []
  remove k ((j, w) ∷ m) = if j == k then remove k m else (j, w) ∷ remove k m

  abbrev pub contains_key : K → List (K × V) → Bool
  contains_key k [] = false
  contains_key k ((j, w) ∷ m) = if j == k then true else contains_key k m

  pub lookup-insert :
      (k j : K) (v : V) (m : List (K × V))
      → lookup j (insert k v m) ≡ (if k == j then some v else lookup j m)
  lookup-insert k j v [] = refl
  lookup-insert k j v ((i, w) ∷ m) =
      ground (arith, e.beq_iff k j, e.beq_iff i k, e.beq_iff i j, lookup-insert k j v m)

  pub lookup-remove :
      (k j : K) (m : List (K × V)) → lookup j (remove k m) ≡ (if k == j then none else lookup j m)
  lookup-remove k j [] = ground arith
  lookup-remove k j ((i, w) ∷ m) =
      ground (arith, e.beq_iff k j, e.beq_iff i k, e.beq_iff i j, lookup-remove k j m)

-- Keys, as Boolean membership; the lists of keys that the program keeps beside its maps.
module _ {ℓ} {K : Type ℓ} ⦃e : Eq K⦄ where
  abbrev pub elem : K → List K → Bool
  elem k [] = false
  elem k (j ∷ js) = if j == k then true else elem k js

  -- `retain(|entry| entry != key)`
  abbrev pub retain_ne : K → List K → List K
  retain_ne k [] = []
  retain_ne k (j ∷ js) = if j == k then retain_ne k js else j ∷ retain_ne k js

  pub elem_head : (k : K) (js : List K) → elem k (k ∷ js) ≡ true
  elem_head k js = ground (arith, (e.beq_iff k k).1 refl)

  pub elem_second : (i j : K) (js : List K) → elem j (i ∷ j ∷ js) ≡ true
  elem_second i j js = ground (arith, elem_head j js)

  pub elem-retain_ne :
      (k j : K) (js : List K) → elem j (retain_ne k js) ≡ (if k == j then false else elem j js)
  elem-retain_ne k j [] = ground arith
  elem-retain_ne k j (i ∷ js) =
      ground (arith, e.beq_iff k j, e.beq_iff i k, e.beq_iff i j, elem-retain_ne k j js)

  pub elem-append :
      (k : K) (xs ys : List K) → elem k (xs ++ ys) ≡ (if elem k xs then true else elem k ys)
  elem-append k [] ys = refl
  elem-append k (x ∷ xs) ys = ground (arith, elem-append k xs ys)

  -- No key twice.
  abbrev pub IsDistinct : List K → Type 0
  IsDistinct [] = Unit
  IsDistinct (k ∷ ks) = (elem k ks ≡ false) × IsDistinct ks

  pub IsDistinct-retain_ne : (k : K) (ks : List K) → IsDistinct ks → IsDistinct (retain_ne k ks)
  IsDistinct-retain_ne k [] d = tt
  IsDistinct-retain_ne k (j ∷ ks) d =
      ground (arith, elem-retain_ne k j ks, IsDistinct-retain_ne k ks d.1)

  pub IsDistinct-concat :
      (ks : List K) (k : K) → IsDistinct ks → elem k ks ≡ false → IsDistinct (ks ++ k ∷ [])
  IsDistinct-concat [] k d h = (refl, tt)
  IsDistinct-concat (j ∷ ks) k d h =
      ground
        (arith, e.beq_iff j k, e.beq_iff k j, elem-append j ks (k ∷ []), IsDistinct-concat ks k d.1)

module _ {ℓ} {K : Type ℓ} ⦃e : Eq K⦄ where
  -- `if !list.contains(&k) { list.push(k) }`
  abbrev pub push_new : K → List K → List K
  push_new k ks = if elem k ks then ks else ks ++ k ∷ []

  pub elem-push_new :
      (k j : K) (ks : List K) → elem j (push_new k ks) ≡ (if elem j ks then true else k == j)
  elem-push_new k j ks = elim (Bool-cases (elem k ks)) [
    | inl h ↦ rw h (elim (Bool-cases (k == j)) [
      | inl q ↦
          let same : k ≡ j = (e.beq_iff k j).0 q in
          let there : elem j ks ≡ true = subst (λ i. elem i ks ≡ true) same h in rw there refl
      | inr q ↦ rw q (ground arith)
    ])
    | inr h ↦ rw h (elem-append j ks (k ∷ []) ∙ ground arith)
  ]

  pub IsDistinct-push_new : (k : K) (ks : List K) → IsDistinct ks → IsDistinct (push_new k ks)
  IsDistinct-push_new k ks d = elim (Bool-cases (elem k ks)) [
    | inl h ↦ rw h d
    | inr h ↦ rw h (IsDistinct-concat ks k d h)
  ]

module _ {ℓ κ} {K : Type ℓ} {V : Type κ} ⦃e : Eq K⦄ where
  abbrev pub keys : List (K × V) → List K
  keys [] = []
  keys ((k, v) ∷ m) = k ∷ keys m

  pub keys-remove : (k : K) (m : List (K × V)) → keys (remove k m) ≡ retain_ne k (keys m)
  keys-remove k [] = refl
  keys-remove k ((j, w) ∷ m) = ground (arith, keys-remove k m)

  pub elem-keys-insert :
      (k j : K) (v : V) (m : List (K × V))
      → elem j (keys (insert k v m)) ≡ (if k == j then true else elem j (keys m))
  elem-keys-insert k j v [] = refl
  elem-keys-insert k j v ((i, w) ∷ m) =
      ground (arith, e.beq_iff k j, e.beq_iff i k, e.beq_iff i j, elem-keys-insert k j v m)

  pub IsDistinct-insert :
      (k : K) (v : V) (m : List (K × V)) → IsDistinct (keys m) → IsDistinct (keys (insert k v m))
  IsDistinct-insert k v [] d = (refl, tt)
  IsDistinct-insert k v ((j, w) ∷ m) d =
      ground
        (arith, e.beq_iff j k, e.beq_iff k j, elem-keys-insert k j v m, IsDistinct-insert k v m d.1)

  pub elem-keys-lookup :
      (k : K) (v : V) (m : List (K × V)) → lookup k m ≡ some v → elem k (keys m) ≡ true
  elem-keys-lookup k v [] h = cc
  elem-keys-lookup k v ((j, w) ∷ m) h = ground (arith, elem-keys-lookup k v m)

  pub length-keys : (m : List (K × V)) → length (keys m) ≡ length m
  length-keys [] = refl
  length-keys ((k, v) ∷ m) = omega (arith, length-keys m)
