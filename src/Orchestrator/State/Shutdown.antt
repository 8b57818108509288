-- ===== src/Orchestrator/State/Shutdown.antt =====
-- `shutdown_profile`: every worker is asked to stop, whatever the others answer.
use corsa_bind.Common.{
  none, some, List, [], ◌∷◌, String, string_eq, ◌==◌, if◌then◌else◌, lookup, lookup-remove, All,
  ◌≡◌, ◌↔◌, refl, ap, arith, inl, inr,
}
use corsa_bind.Core.Error.{Result, ok, Result-cases}
use corsa_bind.Orchestrator.Fleet.{Fleet}
use corsa_bind.Orchestrator.State.{Orchestrator, close_all, shutdown_profile}

module _ {Client : Type 0} (close : Client → Result (Unit {0})) where
  abbrev pub Stops : Client → Type 0
  Stops c = close c ≡ ok tt

  close_all-asks : (cs : List Client) → (close_all close cs).0 ≡ cs
  unfolding close_all
  close_all-asks [] = refl
  close_all-asks (c ∷ cs) = ap (◌∷◌ c) (close_all-asks cs)

  close_all_iff : (cs : List Client) → ((close_all close cs).1 ≡ ok tt) ↔ All Stops cs
  unfolding close_all
  close_all_iff [] = (λ e. tt, λ e. refl)
  close_all_iff (c ∷ cs) = elim (Result-cases (close c)) [
    | inl (u, e) ↦ (
      λ h. (e, (close_all_iff cs).0 (ground (arith, e))),
      λ h. ground (arith, e, (close_all_iff cs).1 h.1),
    )
    | inr (x, e) ↦ (λ h. absurd (ground (arith, e)), λ h. absurd (ground (arith, e, h.0)))
  ]

  -- A profile with a fleet is shut down by asking each of its workers to stop, in order, even if some
  -- fail to. The profile is then gone, other profiles stay as they are, and the call succeeds exactly
  -- if every worker stopped.
  pub shutdown_profile-close :
      {Snapshot : Type 0} (profile : String) (f : Fleet Client) (o : Orchestrator Client Snapshot)
      → lookup profile o.fleets ≡ some f
      → ((shutdown_profile close profile o).1 ≡ f.clients)
        × ((j : String)
            → lookup j (shutdown_profile close profile o).0.fleets
              ≡ (if profile == j then none else lookup j o.fleets))
        × (((shutdown_profile close profile o).2 ≡ ok tt) ↔ All Stops f.clients)
  unfolding shutdown_profile
  shutdown_profile-close profile f o h =
      rw (h, shutdown_profile)
        (close_all-asks f.clients, λ j. lookup-remove profile j o.fleets, close_all_iff f.clients)
