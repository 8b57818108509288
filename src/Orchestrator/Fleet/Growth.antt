-- ===== src/Orchestrator/Fleet/Growth.antt =====
-- What `prewarm` does to the number of workers.
use corsa_bind.Common.{
  ℕ, ◌+◌, ◌≤◌, List, [], ◌∷◌, ◌++◌, length, length-append, All, ◌≡◌, arith, inl, inr, append_assoc,
  append-nil,
}
use corsa_bind.Core.Error.{Result, ok, Result-cases}
use corsa_bind.Orchestrator.Fleet.{Spawn, prewarm_loop}
use corsa_bind.Orchestrator.Run.{done}

module _ {Client : Type 0} where
  -- Others that keep a fleet within its limit.
  abbrev pub Respects : ℕ → Spawn Client → Type 0
  Respects limit s = (cs : List Client) → length cs ≤ limit → length (s.meanwhile cs) ≤ limit

  -- However spawns end and whatever other callers that respect the limit do meanwhile, prewarming a
  -- fleet within the worker limit leaves it within the limit.
  pub prewarm_loop-within :
      (limit replicas : ℕ) (spawns : List (Spawn Client)) (clients after : List Client)
      (r : Result (Unit {0}))
      → All (Respects limit) spawns
      → length clients ≤ limit
      → prewarm_loop limit replicas spawns clients ≡ done (after, r)
      → length after ≤ limit
  unfolding prewarm_loop
  prewarm_loop-within limit replicas [] clients after r q h e = ground arith
  prewarm_loop-within limit replicas (s ∷ spawns) clients after r q h e =
      elim (Result-cases s.outcome) [
        | inl (c, o) ↦ ground (
          arith,
          o,
          q.0 clients,
          length-append (s.meanwhile clients) (c ∷ []),
          prewarm_loop-within limit replicas spawns (s.meanwhile clients ++ c ∷ []) after r q.1,
        )
        | inr (x, o) ↦ ground (arith, o, q.0 clients)
      ]

  -- Spawns that succeed, while nobody else touches the fleet.
  abbrev pub quiet : List Client → List (Spawn Client)
  quiet [] = []
  quiet (c ∷ cs) = record { outcome = ok c; meanwhile = λ x. x } ∷ quiet cs

  -- Undisturbed, with spawns that succeed, prewarming to a number within the limit adds exactly the workers that
  -- are missing, in the order in which they were spawned, and succeeds.
  pub prewarm_loop-quiet :
      (limit replicas : ℕ) (clients spawned : List Client)
      → replicas ≤ limit
      → length clients + length spawned ≡ replicas
      → prewarm_loop limit replicas (quiet spawned) clients ≡ done (clients ++ spawned, ok tt)
  unfolding prewarm_loop
  prewarm_loop-quiet limit replicas clients [] l e = ground (arith, append-nil clients)
  prewarm_loop-quiet limit replicas clients (c ∷ spawned) l e = ground (
    arith,
    prewarm_loop-quiet limit replicas (clients ++ c ∷ []) spawned l,
    length-append clients (c ∷ []),
    append_assoc clients (c ∷ []) spawned,
  )
