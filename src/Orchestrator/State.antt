-- ===== src/Orchestrator/State.antt =====
-- `ApiOrchestrator` of src/core/corsa_orchestrator/src/orchestrator/api.rs. Workers and snapshots
-- are values of any types; what the client library does with them is an argument: the spawns that a
-- call awaits, `update_snapshot`, `close`, a task, and the JSON codec. Time is an argument in
-- milliseconds. Each call runs to its end, but for what others do to a fleet while it spawns.
pub mod Limits
pub mod Shutdown
use corsa_bind.Common.{
  ℕ, zero, suc, ◌+◌, Bool, true, false, Option, none, some, List, [], ◌∷◌, ◌++◌, String, string_eq,
  Bytes, if◌then◌else◌, ltb, leb, length, lookup, insert, remove,
}
use corsa_bind.Core.Error.{CorsaError, protocol, Result, ok, err}
use corsa_bind.Core.Text.{Arg}
use corsa_bind.Orchestrator.Bounded.{Bounded, store, invalidate}
use corsa_bind.Orchestrator.Bounded
use corsa_bind.Orchestrator.Fleet.{
  Fleet, Spawn, new_fleet, prewarm_loop, pick, pick_for_project, release_affinity,
}
use corsa_bind.Orchestrator.Run.{Run, done, waiting, panicked, ◌>>=◌}
use Prim.Native.Nat.{max}

pub record Config : Type 0 where
  pub max_workers_per_profile : ℕ
  pub max_cached_snapshots : ℕ
  pub max_cached_results : ℕ
  pub work_queue_capacity : ℕ

abbrev pub default_config : Config
default_config = record {
  max_workers_per_profile = 8;
  max_cached_snapshots = 64;
  max_cached_results = 256;
  work_queue_capacity = 256;
}

pub record CachedValue : Type 0 where
  pub expires_at : Option ℕ
  pub bytes : Bytes

pub record Stats : Type 0 where
  pub profile_count : ℕ
  pub worker_count : ℕ
  pub cached_snapshot_count : ℕ
  pub cached_result_count : ℕ

pub record Orchestrator (Client Snapshot : Type 0) : Type 0 where
  pub config : Config
  pub fleets : List (String × Fleet Client)
  pub snapshots : Bounded Snapshot
  pub cached : Bounded CachedValue

abbrev too_many : String → ℕ → ℕ → CorsaError
too_many profile replicas limit = protocol (record {
  format = "requested {} workers for profile `{}` exceeds the configured maximum of {}";
  args = Arg.num replicas ∷ Arg.str profile ∷ Arg.num limit ∷ [];
})

-- `config.max_….max(1)`
abbrev pub at_least_one : ℕ → ℕ
at_least_one n = max n 1

module _ {Client : Type 0} where
  abbrev pub workers : List (String × Fleet Client) → ℕ
  workers [] = 0
  workers ((id, f) ∷ fleets) = length f.clients + workers fleets

  abbrev pub or_new : Option (Fleet Client) → Fleet Client
  or_new none = new_fleet
  or_new (some f) = f

  -- The closes of the workers, in order: those that were asked to stop, and the first error.
  unfoldable pub close_all :
      (Client → Result (Unit {0})) → List Client → List Client × Result (Unit {0})
  close_all close [] = ([], ok tt)
  close_all close (c ∷ clients) =
      let (asked, r) = close_all close clients in
      (c ∷ asked, elim (close c) [ ok _ ↦ r | err e ↦ err e ])

module _ {Client Snapshot : Type 0} where
  abbrev pub new : Config → Orchestrator Client Snapshot
  new config = record {
    config = config;
    fleets = [];
    snapshots = Bounded.empty;
    cached = Bounded.empty;
  }

  abbrev pub stats : Orchestrator Client Snapshot → Stats
  stats o = record {
    profile_count = length o.fleets;
    worker_count = workers o.fleets;
    cached_snapshot_count = length o.snapshots.entries;
    cached_result_count = length o.cached.entries;
  }

  -- `fleet`: the fleet of the profile, which is put into the map if it is not there.
  abbrev pub fleet_of : String → Orchestrator Client Snapshot → Fleet Client
  fleet_of profile o = or_new (lookup profile o.fleets)

  abbrev pub set_fleet :
      String → Fleet Client → Orchestrator Client Snapshot → Orchestrator Client Snapshot
  set_fleet profile f o = record o { fleets = insert profile f o.fleets }

  unfoldable pub prewarm :
      List (Spawn Client)
      → String
      → ℕ
      → Orchestrator Client Snapshot
      → Run (Orchestrator Client Snapshot × Result (Unit {0}))
  prewarm spawns profile replicas o =
      let limit = o.config.max_workers_per_profile in
      let f = fleet_of profile o in
      if ltb limit replicas
      then done (o, err (too_many profile replicas limit))
      else prewarm_loop limit replicas spawns f.clients >>= λ (clients, r).
          done (set_fleet profile (record f { clients = clients }) o, r)

  -- `prewarm(profile, 1)`, then a choice in the fleet.
  abbrev pub lease_by :
      (Fleet Client → Run (Fleet Client × Result Client))
      → List (Spawn Client)
      → String
      → Orchestrator Client Snapshot
      → Run (Orchestrator Client Snapshot × Result Client)
  lease_by choose spawns profile o = prewarm spawns profile 1 o >>= λ (o', r). elim r [
    | err e ↦ done (o', err e)
    | ok _ ↦ choose (fleet_of profile o') >>= λ (f, c). done (set_fleet profile f o', c)
  ]

  unfoldable pub lease :
      List (Spawn Client)
      → String
      → Orchestrator Client Snapshot
      → Run (Orchestrator Client Snapshot × Result Client)
  unfolding prewarm
  lease spawns profile = lease_by (pick profile) spawns profile

  unfoldable pub lease_for_project :
      List (Spawn Client)
      → String
      → String
      → Orchestrator Client Snapshot
      → Run (Orchestrator Client Snapshot × Result Client)
  unfolding prewarm
  lease_for_project spawns profile key = lease_by (pick_for_project profile key) spawns profile

  -- A profile that was never leased reports 0 and stays absent.
  abbrev pub project_affinity_count : String → Orchestrator Client Snapshot → ℕ
  project_affinity_count profile o = length (fleet_of profile o).affinity.entries

  unfoldable pub release_project_affinity :
      String → String → Orchestrator Client Snapshot → Orchestrator Client Snapshot
  release_project_affinity profile key o = elim (lookup profile o.fleets) [
    | none ↦ o
    | some f ↦ set_fleet profile (release_affinity key f) o
  ]

  unfoldable pub shutdown_profile :
      (Client → Result (Unit {0}))
      → String
      → Orchestrator Client Snapshot
      → Orchestrator Client Snapshot × List Client × Result (Unit {0})
  unfolding close_all
  shutdown_profile close profile o = elim (lookup profile o.fleets) [
    | none ↦ (o, [], ok tt)
    | some f ↦
        let (asked, r) = close_all close f.clients in
        (record o { fleets = remove profile o.fleets }, asked, r)
  ]
