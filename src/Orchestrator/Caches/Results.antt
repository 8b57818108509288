-- ===== src/Orchestrator/Caches/Results.antt =====
-- The cache of task results: what a call gives while the entry of an earlier call is live.
use corsa_bind.Common.{
  ℕ, ◌≤◌, true, Option, none, some, List, String, string_eq, Bytes, lookup, length, ◌≡◌, inl, inr,
  refl, ap, ◌∙◌, arith,
}
use corsa_bind.Core.Error.{Result, ok, Result-cases}
use corsa_bind.Orchestrator.Bounded.Laws.{IsWell, store-Evicts}
use corsa_bind.Orchestrator.Fleet.{Spawn}
use corsa_bind.Orchestrator.Run.{done, bind-eq-done}
use corsa_bind.Orchestrator.State.{Orchestrator, CachedValue, at_least_one, lease}
use corsa_bind.Orchestrator.State.Limits.{lease-SameCaches}
use corsa_bind.Orchestrator.Caches.{
  is_live, deadline_after, live_entry, store_cached, cached_result,
}

-- A codec that gives values back.
abbrev pub RoundTrips : {T : Type 0} → (T → Result Bytes) → (Bytes → Result T) → Type 0
RoundTrips {T} to_vec from_slice =
    (v : T) (bytes : Bytes) → to_vec v ≡ ok bytes → from_slice bytes ≡ ok v

module _ {Client Snapshot T : Type 0} (to_vec : T → Result Bytes)
    (from_slice : Bytes → Result T) where
  result_hit :
      (task : Client → Result T) (spawns : List (Spawn Client)) (profile key : String)
      (ttl : Option ℕ) (now later : ℕ) (o : Orchestrator Client Snapshot) (e : CachedValue)
      → live_entry now (lookup key o.cached.entries) ≡ some e
      → cached_result to_vec from_slice task spawns profile key ttl now later o
        ≡ done (o, from_slice e.bytes)
  unfolding cached_result
  result_hit task spawns profile key ttl now later o e h = rw (h, cached_result)

  result_stored :
      (task : Client → Result T) (spawns : List (Spawn Client)) (profile key : String)
      (ttl : Option ℕ) (now later : ℕ) (o o' : Orchestrator Client Snapshot) (v : T)
      → live_entry now (lookup key o.cached.entries) ≡ none
      → cached_result to_vec from_slice task spawns profile key ttl now later o ≡ done (o', ok v)
      → (o1 : Orchestrator Client Snapshot) × (c : Result Client) × (bytes : Bytes) × (lease spawns
            profile o
          ≡ done (o1, c))
        × (to_vec v ≡ ok bytes)
        × (o'
            ≡ store_cached key (record { expires_at = deadline_after later ttl; bytes = bytes }) o1)
  unfolding cached_result
  result_stored task spawns profile key ttl now later o o' v m h =
      let ((o1, c), p, q) =
        bind-eq-done (lease spawns profile o) _ (o', ok v) (rw (m, cached_result) at h) in
      elim (Result-cases c) [
        | inr (x, e) ↦ absurd (ground (arith, e))
        | inl (client, e) ↦ elim (Result-cases (task client)) [
          | inr (x, t) ↦ absurd (ground (arith, e, t))
          | inl (value, t) ↦ elim (Result-cases (to_vec value)) [
            | inr (x, b) ↦ absurd (ground (arith, e, t, b))
            | inl (bytes, b) ↦ (o1, c, bytes, p, ground (arith, e, t, b), ground (arith, e, t, b))
          ]
        ]
      ]

  -- After a call that missed and returned a value, a call with the same key before the deadline, for
  -- whatever profile, task and workers, returns that value at once and changes nothing, if the codec
  -- gives values back. The cache is then well kept and within its limit.
  pub cached_result_again :
      (task task' : Client → Result T) (spawns spawns' : List (Spawn Client))
      (profile profile' key : String) (ttl ttl' : Option ℕ) (now later now' later' : ℕ)
      (o o' : Orchestrator Client Snapshot) (v : T)
      → RoundTrips to_vec from_slice
      → IsWell o.cached
      → live_entry now (lookup key o.cached.entries) ≡ none
      → cached_result to_vec from_slice task spawns profile key ttl now later o ≡ done (o', ok v)
      → is_live now' (deadline_after later ttl) ≡ true
      → (cached_result to_vec from_slice task' spawns' profile' key ttl' now' later' o'
          ≡ done (o', ok v))
        × IsWell o'.cached
        × (length o'.cached.entries ≤ at_least_one o'.config.max_cached_results)
  cached_result_again task task' spawns spawns' profile profile' key ttl ttl' now later now' later'
        o o' v codec well miss h live =
      let (o1, c, bytes, l, b, same) =
        result_stored task spawns profile key ttl now later o o' v miss h in
      let caches = lease-SameCaches spawns profile o o1 c l in
      let entry : CachedValue = record { expires_at = deadline_after later ttl; bytes = bytes } in
      let (kept, there) =
        store-Evicts (at_least_one o1.config.max_cached_results) key entry o1.cached (omega arith)
          (rw caches.cached well) in
      rw same (
        result_hit task' spawns' profile' key ttl' now' later' (store_cached key entry o1) entry
              (rw (there, live) refl)
            ∙ ap (λ (r : Result T). done (store_cached key entry o1, r)) (codec v bytes b),
        kept.kept,
        kept.within,
      )
