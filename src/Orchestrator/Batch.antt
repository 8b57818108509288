-- ===== src/Orchestrator/Batch.antt =====
-- The end of `execute_all` of src/core/corsa_orchestrator/src/orchestrator/api.rs: gathering what the
-- workers sent. The queue of jobs and the threads that run them are not modelled.
pub mod Order
use corsa_bind.Common.{ℕ, ◌+◌, Bool, true, false, List, [], ◌∷◌, ◌++◌, leb, if◌then◌else◌}
use corsa_bind.Core.Error.{CorsaError, Result, ok, err}

module _ {R : Type 0} where
  -- `values.sort_by_key(|(index, _)| *index)`, a stable sort.
  unfoldable pub insert_by_key : ℕ × R → List (ℕ × R) → List (ℕ × R)
  insert_by_key x [] = x ∷ []
  insert_by_key x (y ∷ ys) = if leb x.0 y.0 then x ∷ y ∷ ys else y ∷ insert_by_key x ys

  unfoldable pub sort_by_key : List (ℕ × R) → List (ℕ × R)
  unfolding insert_by_key
  sort_by_key [] = []
  sort_by_key (x ∷ xs) = insert_by_key x (sort_by_key xs)

  abbrev pub values_of : List (ℕ × R) → List R
  values_of [] = []
  values_of ((index, value) ∷ values) = value ∷ values_of values

  -- The loop that receives the results, the values so far being `values`.
  unfoldable pub receive_results : List (Result (ℕ × R)) → List (ℕ × R) → Result (List (ℕ × R))
  receive_results [] values = ok values
  receive_results (err e ∷ results) values = err e
  receive_results (ok v ∷ results) values = receive_results results (values ++ v ∷ [])

  unfoldable pub gather : List (Result (ℕ × R)) → Result (List R)
  unfolding sort_by_key receive_results
  gather results = elim (receive_results results []) [
    | err e ↦ err e
    | ok values ↦ ok (values_of (sort_by_key values))
  ]
