-- ===== src/Orchestrator/Caches/Hits.antt =====
-- What a call of a cache gives after the same call.
use corsa_bind.Common.{
  ◌≤◌, none, some, List, String, string_eq, lookup, length, ◌≡◌, inl, inr, arith, Option-cases,
}
use corsa_bind.Core.Error.{Result, ok}
use corsa_bind.Orchestrator.Bounded.Laws.{IsWell, store-Evicts}
use corsa_bind.Orchestrator.Fleet.{Spawn}
use corsa_bind.Orchestrator.Run.{done, bind-eq-done}
use corsa_bind.Orchestrator.State.{Orchestrator, at_least_one, lease}
use corsa_bind.Orchestrator.State.Limits.{lease-SameCaches}
use corsa_bind.Orchestrator.Caches.{store_snapshot, cached_snapshot}

module _ {Client Snapshot : Type 0} where
  snapshot_hit :
      (update : Client → Result Snapshot) (spawns : List (Spawn Client)) (profile key : String)
      (o : Orchestrator Client Snapshot) (s : Snapshot)
      → lookup key o.snapshots.entries ≡ some s
      → cached_snapshot update spawns profile key o ≡ done (o, ok s)
  unfolding cached_snapshot
  snapshot_hit update spawns profile key o s h = rw (h, cached_snapshot)

  -- What a successful call left behind: the snapshot under its key, and a cache that is well kept
  -- and within its limit.
  pub record Remembered (key : String) (s : Snapshot) (o : Orchestrator Client Snapshot)
      : Type 0 where
    pub there : lookup key o.snapshots.entries ≡ some s
    pub kept : IsWell o.snapshots
    pub within : length o.snapshots.entries ≤ at_least_one o.config.max_cached_snapshots

  snapshot_stored :
      (key : String) (s : Snapshot) (o : Orchestrator Client Snapshot)
      → IsWell o.snapshots
      → Remembered key s (store_snapshot key s o)
  snapshot_stored key s o h =
      let (kept, there) =
        store-Evicts (at_least_one o.config.max_cached_snapshots) key s o.snapshots (omega arith)
          h in
      record { there = there; kept = kept.kept; within = kept.within }

  snapshot_miss :
      (update : Client → Result Snapshot) (spawns : List (Spawn Client)) (profile key : String)
      (o o1 o' : Orchestrator Client Snapshot) (c : Result Client) (s : Snapshot)
      → lookup key o.snapshots.entries ≡ none
      → lease spawns profile o ≡ done (o1, c)
      → cached_snapshot update spawns profile key o ≡ done (o', ok s)
      → o' ≡ store_snapshot key s o1
  unfolding cached_snapshot
  snapshot_miss update spawns profile key o o1 o' c s m l h = ground (arith, m, l)

  snapshot_leased :
      (update : Client → Result Snapshot) (spawns : List (Spawn Client)) (profile key : String)
      (o o' : Orchestrator Client Snapshot) (s : Snapshot)
      → lookup key o.snapshots.entries ≡ none
      → cached_snapshot update spawns profile key o ≡ done (o', ok s)
      → (o1 : Orchestrator Client Snapshot) × (c : Result Client) × (lease spawns profile o
          ≡ done (o1, c))
  unfolding cached_snapshot
  snapshot_leased update spawns profile key o o' s m h =
      let ((o1, c), p, q) =
        bind-eq-done (lease spawns profile o) _ (o', ok s) (rw (m, cached_snapshot) at h) in
      (o1, c, p)

  -- After a call that returned a snapshot, from a cache that was well kept and within its limit, the
  -- cache is well kept and within its limit and holds it,
  -- and a call with the same key, for whatever profile and with whatever workers, returns that
  -- snapshot at once and changes nothing: no worker is leased and nothing is built.
  pub cached_snapshot_again :
      (update : Client → Result Snapshot) (spawns : List (Spawn Client)) (profile key : String)
      (o o' : Orchestrator Client Snapshot) (s : Snapshot)
      → IsWell o.snapshots
      → length o.snapshots.entries ≤ at_least_one o.config.max_cached_snapshots
      → cached_snapshot update spawns profile key o ≡ done (o', ok s)
      → Remembered key s o'
        × ((update' : Client → Result Snapshot) (spawns' : List (Spawn Client)) (profile' : String)
            → cached_snapshot update' spawns' profile' key o' ≡ done (o', ok s))
  cached_snapshot_again update spawns profile key o o' s well small h =
      (r, λ update' spawns' profile'. snapshot_hit update' spawns' profile' key o' s r.there)
    where
      r : Remembered key s o'
      r = elim (Option-cases (lookup key o.snapshots.entries)) [
        | inr (t, e) ↦
            let d = snapshot_hit update spawns profile key o t e in
            let same : o ≡ o' = cc in
            let value : t ≡ s = cc in
            rw (← same, ← value) (record { there = e; kept = well; within = small })
        | inl e ↦
            let (o1, c, l) = snapshot_leased update spawns profile key o o' s e h in
            let same = lease-SameCaches spawns profile o o1 c l in
            rw (snapshot_miss update spawns profile key o o1 o' c s e l h)
              (snapshot_stored key s o1 (rw same.snapshots well))
      ]
