-- ===== src/Orchestrator/Tests.antt =====
-- Runs of the orchestrator, with workers named by numbers.
use corsa_bind.Common.{
  nat_eq, ◌↔◌, ℕ, get_elem?, ltb, ◌≤◌, none, some, List, [], ◌∷◌, String, string_eq, if◌then◌else◌,
  ◌==◌, lookup, insert, length, ◌≡◌, refl, arith, All,
}
use corsa_bind.Core.Error.{Result, ok, err, closed}
use corsa_bind.Orchestrator.Bounded.{Bounded, store, invalidate}
use corsa_bind.Orchestrator.Bounded
use corsa_bind.Orchestrator.Bounded.Laws.{IsWell, Evicts, store-Evicts}
use corsa_bind.Orchestrator.Fleet.{Fleet, Spawn, prewarm_loop, pick_for_project}
use corsa_bind.Orchestrator.Fleet.Picking.{
  IsValid, Pinned, picks, picks_rotate, pick_for_project_sticks,
}
use corsa_bind.Orchestrator.Fleet.Growth.{Respects, prewarm_loop-within}
use corsa_bind.Orchestrator.Batch.{gather}
use corsa_bind.Orchestrator.Batch.Order.{Shuffle, nothing, put, indexed, arrivals, gather-arrivals}
use corsa_bind.Orchestrator.State.{Orchestrator, default_config, shutdown_profile}
use corsa_bind.Orchestrator.State.Shutdown.{Stops, shutdown_profile-close}
use corsa_bind.Orchestrator.Run.{done}

abbrev one_entry : Bounded ℕ
one_entry = record { entries = ("a", 1) ∷ []; order = "a" ∷ []; evicted = [] }

one_entry-IsWell : IsWell one_entry
one_entry-IsWell = record {
  covers = λ k e. ground (arith, string_eq.beq_iff k "a");
  keys_distinct = (refl, tt);
  order_distinct = (refl, tt);
}

store-Evicts_example :
    Evicts 1 (insert "b" 2 one_entry.entries) (store 1 "b" 2 one_entry)
    × (lookup "b" (store 1 "b" 2 one_entry).entries ≡ some 2)
store-Evicts_example = store-Evicts 1 "b" 2 one_entry (omega arith) one_entry-IsWell

abbrev pair : Fleet ℕ
pair = record { next = 3; clients = 10 ∷ 20 ∷ []; affinity = one_entry }

pair-IsValid : IsValid pair
pair-IsValid = record { pins = one_entry-IsWell; counter = omega arith }

picks_rotate_example :
    (cs : List ℕ) × (picks "p" 3 pair ≡ done cs) × (length cs ≡ 3) × (get_elem? cs 2 ≡ some 20)
picks_rotate_example = picks_rotate "p" 3 2 pair (omega arith) (omega arith) (omega arith)

pick_for_project_sticks_example :
    (f' : Fleet ℕ) × (c : ℕ) × (pick_for_project "p" "b" pair ≡ done (f', ok c))
    × Pinned "b" pair f' c
    × (pick_for_project "p" "b" f' ≡ done (f', ok c))
pick_for_project_sticks_example = pick_for_project_sticks "p" "b" pair pair-IsValid (omega arith)

abbrev nobody : Fleet ℕ
nobody = record { next = 0; clients = []; affinity = one_entry }

-- Another caller adds a worker while the first is spawned.
abbrev busy : List (Spawn ℕ)
busy = record { outcome = ok 1; meanwhile = λ cs. if ltb (length cs) 2 then 9 ∷ cs else cs } ∷ []

busy-Respects : All (Respects 2) busy
busy-Respects = ((λ cs le. ground arith), tt)

busy_run : prewarm_loop 2 2 busy [] ≡ done (9 ∷ 1 ∷ [], ok tt)
unfolding prewarm_loop
busy_run = refl

prewarm_loop-within_example : 2 ≤ 2
prewarm_loop-within_example =
    prewarm_loop-within 2 2 busy [] (9 ∷ 1 ∷ []) (ok tt) busy-Respects (omega arith) busy_run

abbrev fleet_before : List ℕ
fleet_before = 5 ∷ []

abbrev added : List ℕ
added = 7 ∷ []

abbrev one_fleet : Orchestrator ℕ ℕ
one_fleet = record {
  config = default_config;
  fleets = ("p", pair) ∷ [];
  snapshots = Bounded.empty;
  cached = Bounded.empty;
}

-- The first worker cannot be stopped.
abbrev stop : ℕ → Result (Unit {0})
stop client = if client == 10 then err (closed "worker") else ok tt

shutdown_profile-close_example :
    ((shutdown_profile stop "p" one_fleet).1 ≡ 10 ∷ 20 ∷ [])
    × ((j : String)
        → lookup j (shutdown_profile stop "p" one_fleet).0.fleets
          ≡ (if "p" == j then none else lookup j one_fleet.fleets))
    × (((shutdown_profile stop "p" one_fleet).2 ≡ ok tt) ↔ All (Stops stop) (10 ∷ 20 ∷ []))
shutdown_profile-close_example = shutdown_profile-close stop "p" pair one_fleet refl

abbrev batch : List ℕ
batch = 5 ∷ 6 ∷ 7 ∷ []

-- The results arrive as the last, the first and the middle one.
abbrev arrived : List (ℕ × ℕ)
arrived = (2, 7) ∷ (0, 5) ∷ (1, 6) ∷ []

arrived-Shuffle : Shuffle (indexed 0 batch) arrived
arrived-Shuffle =
    put (0, 5) _ ((2, 7) ∷ []) ((1, 6) ∷ [])
      (put (1, 6) _ ((2, 7) ∷ []) [] (put (2, 7) [] [] [] nothing))

gather-arrivals_example : gather (arrivals arrived) ≡ ok batch
gather-arrivals_example = gather-arrivals batch arrived arrived-Shuffle
