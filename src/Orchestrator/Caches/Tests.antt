-- ===== src/Orchestrator/Caches/Tests.antt =====
-- One worker, and calls of both caches that find nothing yet.
use corsa_bind.Common.{ℕ, some, List, [], ◌∷◌, String, string_eq, Bytes, ◌≡◌, refl, arith}
use corsa_bind.Core.Error.{Result, ok, err, closed}
use corsa_bind.Orchestrator.Bounded.{Bounded, evict, remember, store}
use corsa_bind.Orchestrator.Bounded
use corsa_bind.Orchestrator.Bounded.Laws.{IsWell}
use corsa_bind.Orchestrator.Fleet.{Fleet, Spawn, prewarm_loop, pick, round_robin_index}
use corsa_bind.Orchestrator.Run.{done}
use corsa_bind.Orchestrator.State.{Orchestrator, CachedValue, default_config, prewarm, lease}
use corsa_bind.Orchestrator.Caches.{cached_snapshot, cached_result}
use corsa_bind.Orchestrator.Caches.Hits.{Remembered, cached_snapshot_again}
use corsa_bind.Orchestrator.Caches.Results.{RoundTrips}

abbrev fleet : Fleet ℕ
fleet = record { next = 0; clients = 4 ∷ []; affinity = Bounded.empty }

abbrev before : Orchestrator ℕ ℕ
before = record {
  config = default_config;
  fleets = ("p", fleet) ∷ [];
  snapshots = Bounded.empty;
  cached = Bounded.empty;
}

nothing_kept : {V : Type 0} → IsWell {V = V} Bounded.empty
nothing_kept = record { covers = λ k e. e; keys_distinct = tt; order_distinct = tt }

abbrev fleet_after : Fleet ℕ
fleet_after = record fleet { next = 1 }

abbrev with_snapshot : Orchestrator ℕ ℕ
with_snapshot = record before {
  fleets = ("p", fleet_after) ∷ [];
  snapshots = record { entries = ("k", 40) ∷ []; order = "k" ∷ []; evicted = [] };
}

abbrev build : ℕ → Result ℕ
build client = ok 40

first_snapshot : cached_snapshot build [] "p" "k" before ≡ done (with_snapshot, ok 40)
unfolding cached_snapshot lease prewarm prewarm_loop pick round_robin_index store remember evict
first_snapshot = refl

cached_snapshot_again_example :
    Remembered "k" 40 with_snapshot
    × ((update : ℕ → Result ℕ) (spawns : List (Spawn ℕ)) (profile : String)
        → cached_snapshot update spawns profile "k" with_snapshot ≡ done (with_snapshot, ok 40))
cached_snapshot_again_example =
    cached_snapshot_again build [] "p" "k" before with_snapshot 40 nothing_kept (omega arith)
      first_snapshot

-- A codec of byte strings that stores them as they are.
abbrev to_vec : Bytes → Result Bytes
to_vec b = ok b

to_vec-RoundTrips : RoundTrips to_vec (λ b. ok b)
to_vec-RoundTrips v bytes h = ground arith

abbrev with_result : Orchestrator ℕ ℕ
with_result =
    let entry : CachedValue = record { expires_at = some 150; bytes = 7 ∷ [] } in
    record before {
      fleets = ("p", fleet_after) ∷ [];
      cached = record { entries = ("k", entry) ∷ []; order = "k" ∷ []; evicted = [] };
    }

abbrev run_task : ℕ → Result Bytes
run_task client = ok (7 ∷ [])

abbrev fail_task : ℕ → Result Bytes
fail_task client = err (closed "worker")

first_result :
    cached_result to_vec (λ b. ok b) run_task [] "p" "k" (some 50) 90 100 before
    ≡ done (with_result, ok (7 ∷ []))
unfolding cached_result lease prewarm prewarm_loop pick round_robin_index store remember evict
first_result = refl
