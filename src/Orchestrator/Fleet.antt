-- ===== src/Orchestrator/Fleet.antt =====
-- `ClientFleet` of src/core/corsa_orchestrator/src/orchestrator/api.rs: the workers of a profile,
-- the round-robin counter and the workers pinned to projects. A worker is a value of any type; a
-- profile is its id.
pub mod Picking
pub mod Growth
use corsa_bind.Common.{
  ℕ, zero, suc, ◌+◌, ◌%◌, ◌^◌, Bool, true, false, Option, none, some, List, [], ◌∷◌, ◌++◌, String,
  string_eq, nat_eq, ◌==◌, ◌&&◌, not, if◌then◌else◌, ltb, length, get_elem?, lookup, insert,
}
use corsa_bind.Core.Error.{CorsaError, protocol, Result, ok, err}
use corsa_bind.Core.Text.{with_str}
use corsa_bind.Orchestrator.Bounded.{Bounded, remember, invalidate}
use corsa_bind.Orchestrator.Bounded
use corsa_bind.Orchestrator.Run.{Run, done, waiting, panicked, ◌>>=◌}

abbrev pub max_project_affinities : ℕ
max_project_affinities = 1_024

-- The `affinity` map and its `affinity_order` are one bounded map.
pub record Fleet (Client : Type 0) : Type 0 where
  pub next : ℕ
  pub clients : List Client
  pub affinity : Bounded ℕ

-- What a spawn that was awaited gave, and what other callers did to the fleet meanwhile.
pub record Spawn (Client : Type 0) : Type 0 where
  pub outcome : Result Client
  pub meanwhile : List Client → List Client

abbrev pub no_workers : String → CorsaError
no_workers profile = protocol (with_str "profile `{}` has no workers to lease" profile)

-- `.copied().filter(|index| *index < clients.len())`
abbrev pub live_pin : ℕ → Option ℕ → Option ℕ
live_pin len none = none
live_pin len (some index) = if ltb index len then some index else none

module _ {Client : Type 0} where
  abbrev pub new_fleet : Fleet Client
  new_fleet = record { next = 0; clients = []; affinity = Bounded.empty }

  -- The loop of `prewarm`, over the spawns to come: the clients and the result. A worker that is not
  -- accepted is closed.
  unfoldable pub prewarm_loop :
      ℕ → ℕ → List (Spawn Client) → List Client → Run (List Client × Result (Unit {0}))
  prewarm_loop limit replicas [] clients =
      if ltb (length clients) replicas then waiting else done (clients, ok tt)
  prewarm_loop limit replicas (s ∷ spawns) clients =
      let now = s.meanwhile clients in
      let grown : Run (List Client × Result (Unit {0})) = elim s.outcome [
        | err e ↦ done (now, err e)
        | ok client ↦
            let again = prewarm_loop limit replicas spawns (now ++ client ∷ []) in
            if ltb (length now) replicas && ltb (length now) limit then again else done (now, ok tt)
      ] in
      if ltb (length clients) replicas then grown else done (clients, ok tt)

  -- `round_robin_index`: the counter wraps at 64 bits.
  unfoldable pub round_robin_index : String → ℕ → Fleet Client → Fleet Client × Result ℕ
  round_robin_index profile len f =
      if len == 0
      then (f, err (no_workers profile))
      else (record f { next = (f.next + 1) % 2 ^ 64 }, ok (f.next % len))

  -- `clients[index].clone()`
  abbrev pub client_at : List Client → ℕ → Run Client
  client_at clients index = elim (get_elem? clients index) [ none ↦ panicked | some c ↦ done c ]

  abbrev pub leased : Fleet Client → Result ℕ → Run (Fleet Client × Result Client)
  leased f (err e) = done (f, err e)
  leased f (ok index) = client_at f.clients index >>= λ c. done (f, ok c)

  -- What `lease` does with its fleet.
  unfoldable pub pick : String → Fleet Client → Run (Fleet Client × Result Client)
  pick profile f =
      let (f', index) = round_robin_index profile (length f.clients) f in leased f' index

  -- The pin of a new project, and its bookkeeping.
  abbrev pub pin_new : String → Fleet Client → Result ℕ → Fleet Client
  pin_new key f (err e) = f
  pin_new key f (ok index) = record f {
    affinity = Bounded.store max_project_affinities key index f.affinity;
  }

  -- What `lease_for_project` does with its fleet.
  unfoldable pub pick_for_project :
      String → String → Fleet Client → Run (Fleet Client × Result Client)
  pick_for_project profile key f =
      elim (live_pin (length f.clients) (lookup key f.affinity.entries)) [
        | some index ↦ leased f (ok index)
        | none ↦
            let (f', index) = round_robin_index profile (length f.clients) f in
            leased (pin_new key f' index) index
      ]

  -- `release_project_affinity`, at a fleet that is there.
  abbrev pub release_affinity : String → Fleet Client → Fleet Client
  release_affinity key f = record f { affinity = invalidate key f.affinity }
