-- ===== src/Orchestrator/Batch/Order.antt =====
-- Results come out in the order of their inputs, in whatever order they arrive.
use corsa_bind.Common.{
  ℕ, ◌+◌, ◌<◌, List, [], ◌∷◌, ◌++◌, append_assoc, append-nil, All, ◌≡◌, refl, sym, ap, ◌∙◌, arith,
}
use corsa_bind.Core.Error.{Result, ok}
use corsa_bind.Orchestrator.Batch.{insert_by_key, sort_by_key, values_of, receive_results, gather}

-- A list in another order: its first element may stand anywhere among the others, which are in
-- another order themselves.
pub data Shuffle {A : Type 0} : List A → List A → Type 0 where
  nothing : Shuffle [] []
  put :
      (x : A) (xs before after : List A)
      → Shuffle xs (before ++ after)
      → Shuffle (x ∷ xs) (before ++ x ∷ after)

module _ {R : Type 0} where
  -- The results of the inputs from an index on, each with its index.
  abbrev pub indexed : ℕ → List R → List (ℕ × R)
  indexed k [] = []
  indexed k (r ∷ rs) = (k, r) ∷ indexed (k + 1) rs

  abbrev pub arrivals : List (ℕ × R) → List (Result (ℕ × R))
  arrivals [] = []
  arrivals (v ∷ vs) = ok v ∷ arrivals vs

  abbrev Above : ℕ → ℕ × R → Type 0
  Above k v = k < v.0

  Above-indexed : (k j : ℕ) (rs : List R) → k < j → All (Above k) (indexed j rs)
  Above-indexed k j [] h = tt
  Above-indexed k j (r ∷ rs) h = (h, Above-indexed k (j + 1) rs (omega arith))

  All-put :
      (k : ℕ) (x : ℕ × R) (before after : List (ℕ × R))
      → Above k x
      → All (Above k) (before ++ after)
      → All (Above k) (before ++ x ∷ after)
  All-put k x [] after h a = (h, a)
  All-put k x (y ∷ before) after h a = (a.0, All-put k x before after h a.1)

  All-Shuffle : (k : ℕ) {xs ys : List (ℕ × R)} → Shuffle xs ys → All (Above k) xs → All (Above k) ys
  All-Shuffle k nothing a = a
  All-Shuffle k (put x xs before after s) a = All-put k x before after a.0 (All-Shuffle k s a.1)

  insert_by_key-insert_by_key :
      (x y : ℕ × R) (vs : List (ℕ × R))
      → x.0 < y.0
      → insert_by_key y (insert_by_key x vs) ≡ insert_by_key x (insert_by_key y vs)
  unfolding insert_by_key
  insert_by_key-insert_by_key x y [] h = ground arith
  insert_by_key-insert_by_key x y (v ∷ vs) h = ground (arith, insert_by_key-insert_by_key x y vs h)

  insert_by_key_first :
      (k : ℕ) (r : R) (rs : List R)
      → insert_by_key (k, r) (indexed (k + 1) rs) ≡ (k, r) ∷ indexed (k + 1) rs
  unfolding insert_by_key
  insert_by_key_first k r [] = refl
  insert_by_key_first k r (s ∷ rs) = ground arith

  sort_by_key-put :
      (k : ℕ) (r : R) (before after : List (ℕ × R))
      → All (Above k) (before ++ after)
      → sort_by_key (before ++ (k, r) ∷ after)
        ≡ insert_by_key (k, r) (sort_by_key (before ++ after))
  unfolding sort_by_key
  sort_by_key-put k r [] after a = refl
  sort_by_key-put k r (y ∷ before) after a =
      ap (insert_by_key y) (sort_by_key-put k r before after a.1)
      ∙ insert_by_key-insert_by_key (k, r) y (sort_by_key (before ++ after)) a.0

  sort_by_key-Shuffle :
      (k : ℕ) (rs : List R) {vs : List (ℕ × R)}
      → Shuffle (indexed k rs) vs
      → sort_by_key vs ≡ indexed k rs
  unfolding sort_by_key
  sort_by_key-Shuffle k [] nothing = refl
  sort_by_key-Shuffle k (r ∷ rs) (put x xs before after s) =
      sort_by_key-put k r before after (All-Shuffle k s (Above-indexed k (k + 1) rs (omega arith)))
      ∙ ap (insert_by_key (k, r)) (sort_by_key-Shuffle (k + 1) rs s)
      ∙ insert_by_key_first k r rs

  receive_results-arrivals :
      (vs got : List (ℕ × R)) → receive_results (arrivals vs) got ≡ ok (got ++ vs)
  unfolding receive_results
  receive_results-arrivals [] got = ap ok (sym (append-nil got))
  receive_results-arrivals (v ∷ vs) got =
      receive_results-arrivals vs (got ++ v ∷ []) ∙ ap ok (append_assoc got (v ∷ []) vs)

  values_of-indexed : (k : ℕ) (rs : List R) → values_of (indexed k rs) ≡ rs
  values_of-indexed k [] = refl
  values_of-indexed k (r ∷ rs) = ap (◌∷◌ r) (values_of-indexed (k + 1) rs)

  -- If every job of a batch succeeds, the results are those of the inputs in the inputs' order, in
  -- whatever order they arrive.
  pub gather-arrivals :
      (rs : List R) (vs : List (ℕ × R)) → Shuffle (indexed 0 rs) vs → gather (arrivals vs) ≡ ok rs
  unfolding gather
  gather-arrivals rs vs s =
      rw (receive_results-arrivals vs [], gather)
        (ap (λ (x : List (ℕ × R)). ok (values_of x)) (sort_by_key-Shuffle 0 rs s)
          ∙ ap ok (values_of-indexed 0 rs))
