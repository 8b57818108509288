-- ===== src/Orchestrator/Bounded.antt =====
-- The map with an eviction order of src/core/corsa_orchestrator/src/orchestrator/api.rs, as it
-- stands three times there: the map entry is written first, then the key is remembered.
pub mod Laws
use corsa_bind.Common.{
  ℕ, suc, ◌+◌, ◌≤◌, Bool, true, false, Option, none, some, List, [], ◌∷◌, ◌++◌, String, string_eq,
  Eq, ◌==◌, if◌then◌else◌, ltb, length, lookup, insert, remove, retain_ne,
}

-- A map, the order of its keys from the oldest on, and the keys reported as evicted, newest first.
pub record Bounded {ℓ} (V : Type ℓ) : Type ℓ where
  pub entries : List (String × V)
  pub order : List String
  pub evicted : List String

abbrev pub is_some {ℓ} : {A : Type ℓ} → Option A → Bool
is_some none = false
is_some (some a) = true

module _ {ℓ} {V : Type ℓ} where
  abbrev pub empty : Bounded V
  empty = record { entries = []; order = []; evicted = [] }

  -- `while map.len() > limit { let Some(evicted) = order.pop_front() else { break }; … }`
  unfoldable pub evict : ℕ → List String → List (String × V) → List String → Bounded V
  evict limit [] entries log = record { entries = entries; order = []; evicted = log }
  evict limit (k ∷ order) entries log =
      let log' = if is_some (lookup k entries) then k ∷ log else log in
      let rest = evict limit order (remove k entries) log' in
      if ltb limit (length entries)
      then rest
      else record { entries = entries; order = k ∷ order; evicted = log }

  -- `remember_…_key`
  unfoldable pub remember : ℕ → String → Bounded V → Bounded V
  remember limit key b = evict limit (retain_ne key b.order ++ key ∷ []) b.entries b.evicted

  unfoldable pub store : ℕ → String → V → Bounded V → Bounded V
  store limit key value b = remember limit key (record b { entries = insert key value b.entries })

  -- `invalidate_…`
  unfoldable pub invalidate : String → Bounded V → Bounded V
  invalidate key b = record b { entries = remove key b.entries; order = retain_ne key b.order }
