-- ===== src/Orchestrator/State/Limits.antt =====
-- What leasing keeps: the caches and the configuration, and the worker limit of every fleet.
use corsa_bind.Common.{ℕ, List, String, string_eq, ◌≡◌, arith}
use corsa_bind.Core.Error.{Result}
use corsa_bind.Orchestrator.Fleet.{Fleet, Spawn, pick}
use corsa_bind.Orchestrator.Run.{Run, done, bind-eq-done}
use corsa_bind.Orchestrator.State.{Orchestrator, prewarm, lease_by, lease}

module _ {Client Snapshot : Type 0} where
  pub record SameCaches (o o' : Orchestrator Client Snapshot) : Type 0 where
    pub config : o'.config ≡ o.config
    pub snapshots : o'.snapshots ≡ o.snapshots
    pub cached : o'.cached ≡ o.cached

  prewarm-SameCaches :
      (spawns : List (Spawn Client)) (profile : String) (replicas : ℕ)
      (o o' : Orchestrator Client Snapshot) (r : Result (Unit {0}))
      → prewarm spawns profile replicas o ≡ done (o', r)
      → SameCaches o o'
  unfolding prewarm
  prewarm-SameCaches spawns profile replicas o o' r h = ground arith

  lease_by-SameCaches :
      (choose : Fleet Client → Run (Fleet Client × Result Client)) (spawns : List (Spawn Client))
      (profile : String) (o o' : Orchestrator Client Snapshot) (r : Result Client)
      → lease_by choose spawns profile o ≡ done (o', r)
      → SameCaches o o'
  lease_by-SameCaches choose spawns profile o o' r h =
      let ((o1, r1), p, q) = bind-eq-done (prewarm spawns profile 1 o) _ (o', r) h in
      let same : SameCaches o o1 = prewarm-SameCaches spawns profile 1 o o1 r1 p in
      ground (arith, same.config, same.snapshots, same.cached)

  pub lease-SameCaches :
      (spawns : List (Spawn Client)) (profile : String) (o o' : Orchestrator Client Snapshot)
      (r : Result Client)
      → lease spawns profile o ≡ done (o', r)
      → SameCaches o o'
  unfolding lease
  lease-SameCaches spawns profile o o' r h =
      lease_by-SameCaches (pick profile) spawns profile o o' r h
