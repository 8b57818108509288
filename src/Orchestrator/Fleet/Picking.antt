-- ===== src/Orchestrator/Fleet/Picking.antt =====
-- Leases: round robin in turn, no index out of range, and a project that stays with its worker.
use corsa_bind.Common.{
  ℕ, zero, suc, ◌+◌, ◌%◌, ◌^◌, ◌<◌, Option, none, some, List, [], ◌∷◌, String, string_eq, nat_eq,
  length, get_elem?, get_elem?-lt, lookup, ◌≡◌, inl, inr, refl, sym, ap, ◌∙◌, arith, Option-cases,
}
use corsa_bind.Core.Error.{ok, err}
use corsa_bind.Orchestrator.Bounded.{store}
use corsa_bind.Orchestrator.Bounded.Laws.{IsWell, store-Evicts}
use corsa_bind.Orchestrator.Fleet.{
  Fleet, max_project_affinities, no_workers, round_robin_index, pick, live_pin, pick_for_project,
}
use corsa_bind.Orchestrator.Run.{Run, done, ◌>>=◌}

live_pin-eq-some :
    (len : ℕ) (o : Option ℕ) (i : ℕ) → live_pin len o ≡ some i → (o ≡ some i) × (i < len)
live_pin-eq-some len none i h = cc
live_pin-eq-some len (some j) i h = ground arith

module _ {Client : Type 0} where
  -- A fleet whose pins are well kept and whose counter fits 64 bits.
  pub record IsValid (f : Fleet Client) : Type 0 where
    pub pins : IsWell f.affinity
    pub counter : f.next < 2 ^ 64

  pick_at :
      (profile : String) (f : Fleet Client)
      → 0 < length f.clients
      → (c : Client) × (get_elem? f.clients (f.next % length f.clients) ≡ some c)
        × (pick profile f ≡ done (record f { next = (f.next + 1) % 2 ^ 64 }, ok c))
  unfolding pick round_robin_index
  pick_at profile f h =
      let (c, e) = get_elem?-lt f.clients (f.next % length f.clients) (grind arith) in
      (c, e, ground arith)

  -- Repeated leases of one fleet, with the workers that they gave.
  pub picks : String → ℕ → Fleet Client → Run (List Client)
  picks profile zero f = done []
  picks profile (suc k) f = pick profile f >>= λ (f', r). elim r [
    | err e ↦ done []
    | ok c ↦ picks profile k f' >>= λ cs. done (c ∷ cs)
  ]

  picks_step :
      (profile : String) (k : ℕ) (f f' : Fleet Client) (c : Client) (cs : List Client)
      → pick profile f ≡ done (f', ok c)
      → picks profile k f' ≡ done cs
      → picks profile (suc k) f ≡ done (c ∷ cs)
  unfolding picks
  picks_step profile k f f' c cs p q = ground (arith, p, q)

  picks_all :
      (profile : String) (k : ℕ) (f : Fleet Client)
      → 0 < length f.clients
      → f.next + k < 2 ^ 64
      → (cs : List Client) × (picks profile k f ≡ done cs)
        × (length cs ≡ k)
        × ((i : ℕ) → i < k → get_elem? cs i ≡ get_elem? f.clients ((f.next + i) % length f.clients))
  picks_all profile zero f h w = ([], unfold picks in refl, refl, λ i lt. absurd (omega arith))
  picks_all profile (suc k) f h w =
      let (c, at, p) = pick_at profile f h in
      let after : (f.next + 1) % 2 ^ 64 ≡ f.next + 1 = omega arith in
      let (cs, q, l, rest) =
        picks_all profile k (record f { next = (f.next + 1) % 2 ^ 64 }) h (omega arith) in
      (
        c ∷ cs,
        picks_step profile k f _ c cs p q,
        ap suc l,
        elim [
          | zero ↦ λ _.
              sym (ap (λ (n : ℕ). get_elem? f.clients (n % length f.clients)) (omega arith) ∙ at)
          | suc i ↦ λ lt.
              rest i (omega arith)
              ∙ ap (λ (n : ℕ). get_elem? f.clients (n % length f.clients)) (omega arith)
        ],
      )

  -- As long as the counter does not wrap, repeated leases of a fleet with workers all succeed and go
  -- round the fleet: the one after `i` others gets the worker at the counter's start plus `i`,
  -- modulo the number of workers.
  pub picks_rotate :
      (profile : String) (k i : ℕ) (f : Fleet Client)
      → 0 < length f.clients
      → f.next + k < 2 ^ 64
      → i < k
      → (cs : List Client) × (picks profile k f ≡ done cs)
        × (length cs ≡ k)
        × (get_elem? cs i ≡ get_elem? f.clients ((f.next + i) % length f.clients))
  picks_rotate profile k i f h w lt =
      let (cs, p, l, rest) = picks_all profile k f h w in (cs, p, l, rest i lt)

  pick_for_project_pinned :
      (profile key : String) (f : Fleet Client) (i : ℕ) (c : Client)
      → lookup key f.affinity.entries ≡ some i
      → i < length f.clients
      → get_elem? f.clients i ≡ some c
      → pick_for_project profile key f ≡ done (f, ok c)
  unfolding pick_for_project
  pick_for_project_pinned profile key f i c l lt at = ground arith

  pick_for_project_new :
      (profile key : String) (f : Fleet Client) (c : Client)
      → live_pin (length f.clients) (lookup key f.affinity.entries) ≡ none
      → 0 < length f.clients
      → get_elem? f.clients (f.next % length f.clients) ≡ some c
      → pick_for_project profile key f
        ≡ done (
          record f {
            next = (f.next + 1) % 2 ^ 64;
            affinity = store max_project_affinities key (f.next % length f.clients) f.affinity;
          },
          ok c,
        )
  unfolding pick_for_project round_robin_index
  pick_for_project_new profile key f c l lt at = ground arith

  -- The project is pinned, in a valid fleet of the same workers, to the worker that was leased.
  pub record Pinned (key : String) (f f' : Fleet Client) (c : Client) : Type 0 where
    pub index : ℕ
    pub pinned : lookup key f'.affinity.entries ≡ some index
    pub worker : get_elem? f'.clients index ≡ some c
    pub same_clients : f'.clients ≡ f.clients
    pub valid : IsValid f'

  new_Pinned :
      (key : String) (f : Fleet Client) (c : Client)
      → IsValid f
      → get_elem? f.clients (f.next % length f.clients) ≡ some c
      → Pinned key f
          (record f {
            next = (f.next + 1) % 2 ^ 64;
            affinity = store max_project_affinities key (f.next % length f.clients) f.affinity;
          })
          c
  new_Pinned key f c v at =
      let (kept, there) =
        store-Evicts max_project_affinities key (f.next % length f.clients) f.affinity (omega arith)
          v.pins in
      record {
        index = f.next % length f.clients;
        pinned = there;
        worker = at;
        same_clients = refl;
        valid = record { pins = kept.kept; counter = omega arith };
      }

  -- A lease for a project at a valid fleet with workers succeeds and never indexes out of range. It
  -- leaves a valid fleet of the same workers in which the project is pinned to the worker that it
  -- returned, and leasing the project again returns that worker and changes nothing.
  pub pick_for_project_sticks :
      (profile key : String) (f : Fleet Client)
      → IsValid f
      → 0 < length f.clients
      → (f' : Fleet Client) × (c : Client) × (pick_for_project profile key f ≡ done (f', ok c))
        × Pinned key f f' c
        × (pick_for_project profile key f' ≡ done (f', ok c))
  unfolding new_Pinned
  pick_for_project_sticks profile key f v h =
      elim (Option-cases (live_pin (length f.clients) (lookup key f.affinity.entries))) [
        | inr (i, e) ↦
            let (l, lt) = live_pin-eq-some (length f.clients) _ i e in
            let (c, at) = get_elem?-lt f.clients i lt in
            let p = pick_for_project_pinned profile key f i c l lt at in
            (
              f,
              c,
              p,
              record { index = i; pinned = l; worker = at; same_clients = refl; valid = v },
              p,
            )
        | inl e ↦
            let (c, at) = get_elem?-lt f.clients (f.next % length f.clients) (grind arith) in
            let f' : Fleet Client = record f {
              next = (f.next + 1) % 2 ^ 64;
              affinity = store max_project_affinities key (f.next % length f.clients) f.affinity;
            } in
            let q = new_Pinned key f c v at in
            (
              f',
              c,
              pick_for_project_new profile key f c e h at,
              q,
              pick_for_project_pinned profile key f' (f.next % length f.clients) c q.pinned
                  (grind arith) at,
            )
      ]

  -- A fleet with no workers gives an error, no panic, and keeps its counter and its pins.
  pub pick_empty :
      (profile key : String) (f : Fleet Client)
      → f.clients ≡ []
      → (pick profile f ≡ done (f, err (no_workers profile)))
        × (pick_for_project profile key f ≡ done (f, err (no_workers profile)))
  unfolding pick pick_for_project round_robin_index
  pick_empty profile key f h = (ground arith, ground arith)
