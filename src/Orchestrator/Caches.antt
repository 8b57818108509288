-- ===== src/Orchestrator/Caches.antt =====
-- The snapshot cache and the result cache of src/core/corsa_orchestrator/src/orchestrator/api.rs.
pub mod Hits
pub mod Results
pub mod Tests
use corsa_bind.Common.{
  ℕ, ◌+◌, Bool, true, false, Option, none, some, List, String, string_eq, Bytes, if◌then◌else◌, ltb,
  lookup,
}
use corsa_bind.Core.Error.{Result, ok, err}
use corsa_bind.Orchestrator.Bounded.{Bounded, store, invalidate}
use corsa_bind.Orchestrator.Fleet.{Spawn}
use corsa_bind.Orchestrator.Run.{Run, done, waiting, panicked, ◌>>=◌}
use corsa_bind.Orchestrator.State.{Orchestrator, CachedValue, at_least_one, lease}

-- `expires_at.map(|deadline| deadline > now).unwrap_or(true)`
abbrev pub is_live : ℕ → Option ℕ → Bool
is_live now none = true
is_live now (some deadline) = ltb now deadline

-- `ttl.map(|ttl| Instant::now() + ttl)`
abbrev pub deadline_after : ℕ → Option ℕ → Option ℕ
deadline_after now none = none
deadline_after now (some ttl) = some (now + ttl)

-- The entry of the cache, while it is live.
abbrev pub live_entry : ℕ → Option CachedValue → Option CachedValue
live_entry now none = none
live_entry now (some v) = if is_live now v.expires_at then some v else none

module _ {Client Snapshot : Type 0} where
  abbrev pub store_snapshot :
      String → Snapshot → Orchestrator Client Snapshot → Orchestrator Client Snapshot
  store_snapshot key s o = record o {
    snapshots = store (at_least_one o.config.max_cached_snapshots) key s o.snapshots;
  }

  unfoldable pub cached_snapshot :
      (Client → Result Snapshot)
      → List (Spawn Client)
      → String
      → String
      → Orchestrator Client Snapshot
      → Run (Orchestrator Client Snapshot × Result Snapshot)
  unfolding lease
  cached_snapshot update_snapshot spawns profile key o = elim (lookup key o.snapshots.entries) [
    | some s ↦ done (o, ok s)
    | none ↦ lease spawns profile o >>= λ (o', leased). elim leased [
      | err e ↦ done (o', err e)
      | ok client ↦ elim (update_snapshot client) [
        | err e ↦ done (o', err e)
        | ok s ↦ done (store_snapshot key s o', ok s)
      ]
    ]
  ]

  unfoldable pub invalidate_snapshot :
      String → Orchestrator Client Snapshot → Orchestrator Client Snapshot
  invalidate_snapshot key o = record o { snapshots = invalidate key o.snapshots }

  unfoldable pub invalidate_cached :
      String → Orchestrator Client Snapshot → Orchestrator Client Snapshot
  invalidate_cached key o = record o { cached = invalidate key o.cached }

  abbrev pub store_cached :
      String → CachedValue → Orchestrator Client Snapshot → Orchestrator Client Snapshot
  store_cached key v o = record o {
    cached = store (at_least_one o.config.max_cached_results) key v o.cached;
  }

  -- `cached`, where `now` is the time of the look-up and `later` the time after the task.
  module _ {T : Type 0} (to_vec : T → Result Bytes) (from_slice : Bytes → Result T) where
    unfoldable pub cached_result :
        (Client → Result T)
        → List (Spawn Client)
        → String
        → String
        → Option ℕ
        → (now later : ℕ) → Orchestrator Client Snapshot
        → Run (Orchestrator Client Snapshot × Result T)
    unfolding lease
    cached_result task spawns profile key ttl now later o =
        elim (live_entry now (lookup key o.cached.entries)) [
          | some v ↦ done (o, from_slice v.bytes)
          | none ↦ lease spawns profile o >>= λ (o', leased). elim leased [
            | err e ↦ done (o', err e)
            | ok client ↦ elim (task client) [
              | err e ↦ done (o', err e)
              | ok value ↦ elim (to_vec value) [
                | err e ↦ done (o', err e)
                | ok bytes ↦
                    let entry : CachedValue = record {
                      expires_at = deadline_after later ttl;
                      bytes = bytes;
                    } in
                    done (store_cached key entry o', ok value)
              ]
            ]
          ]
        ]
