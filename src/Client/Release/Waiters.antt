-- ===== src/Client/Release/Waiters.antt =====
-- No drain is forgotten: one waits only while releases are pending, and is told when they are done.
use corsa_bind.Common.{
  ℕ, ◌+◌, ◌-◌, ◌^◌, ◌<◌, true, false, some, List, [], ◌∷◌, ◌++◌, ◌==◌, nat_eq, nat_beq_iff,
  if◌then◌else◌, elem, elem-append, elem-retain_ne, lookup, ◌≡◌, refl, arith, Bool-cases, inl, inr,
}
use corsa_bind.Core.Error.{CorsaError, Result}
use corsa_bind.Client.Release.{
  Progress, new, result_of, wake_all, wake_waiters, submit, complete, fail, retain_held, drain,
  drop_drain,
}

-- The calls that change the progress.
pub data Step : Progress → Progress → Type 0 where
  submits : (p : Progress) → p.pending + 1 < 2 ^ 64 → Step p (submit p)
  completes : (r : Result (Unit {0})) (p : Progress) → Step p (complete r p)
  fails : (e : CorsaError) (p : Progress) → Step p (fail e p)
  drains : (p : Progress) → Step p (drain p).0
  drops : (w : ℕ) (p : Progress) → Step p (drop_drain w p)

pub data Reaches (p : Progress) : Progress → Type 0 where
  here : Reaches p p
  after : {q r : Progress} → Reaches p q → Step q r → Reaches p r

lookup-wake_all :
    (r : Result (Unit {0})) (held waiters : List ℕ) (told : List (ℕ × Result (Unit {0}))) (w : ℕ)
    → elem w held ≡ true
    → lookup w (wake_all r held waiters told) ≡ (if elem w waiters then some r else lookup w told)
unfolding wake_all
lookup-wake_all r held [] told w h = refl
lookup-wake_all r held (v ∷ waiters) told w h = ground (
  arith,
  lookup-wake_all r held waiters told w h,
  lookup-wake_all r held waiters ((v, r) ∷ told) w h,
  nat_beq_iff v w,
)

elem-retain_held :
    (w : ℕ) (held waiters : List ℕ)
    → elem w held ≡ true
    → elem w (retain_held held waiters) ≡ elem w waiters
elem-retain_held w held [] h = refl
elem-retain_held w held (v ∷ waiters) h =
    ground (arith, elem-retain_held w held waiters h, nat_beq_iff v w)

-- A drain that is held and does not wait was told a result.
abbrev pub Served : List ℕ → List ℕ → List (ℕ × Result (Unit {0})) → Type 0
Served held waiters told =
    (w : ℕ)
    → elem w held ≡ true
    → elem w waiters ≡ false
    → (r : Result (Unit {0})) × (lookup w told ≡ some r)

pub record IsFair (p : Progress) : Type 0 where
  pub idle : p.pending ≡ 0 → p.waiters ≡ []
  pub served : Served p.held p.waiters p.told

Served-wake_all :
    (r : Result (Unit {0})) (held waiters : List ℕ) (told : List (ℕ × Result (Unit {0})))
    → Served held waiters told
    → Served held [] (wake_all r held waiters told)
Served-wake_all r held waiters told s w h n = elim (Bool-cases (elem w waiters)) [
  | inl t ↦ (r, ground (arith, lookup-wake_all r held waiters told w h, t))
  | inr f ↦
      let (x, e) = s w h f in (x, ground (arith, lookup-wake_all r held waiters told w h, f, e))
]

wake_waiters-IsFair : (p : Progress) → Served p.held p.waiters p.told → IsFair (wake_waiters p)
wake_waiters-IsFair p s = record {
  idle = λ e. refl;
  served = Served-wake_all (result_of p.error) p.held p.waiters p.told s;
}

complete-IsFair : (r : Result (Unit {0})) (p : Progress) → IsFair p → IsFair (complete r p)
unfolding complete
complete-IsFair r p h = elim (Bool-cases (p.pending - 1 == 0)) [
  | inl e ↦ rw e (wake_waiters-IsFair _ h.served)
  | inr e ↦ rw e (record { idle = λ z. ground (arith, e); served = h.served })
]

Served-drain_busy :
    (p : Progress)
    → IsFair p
    → Served (p.made ∷ p.held) (retain_held p.held p.waiters ++ p.made ∷ []) p.told
Served-drain_busy p h w there free = elim (Bool-cases (p.made == w)) [
  | inl e ↦
      absurd (ground (arith, e, free, elem-append w (retain_held p.held p.waiters) (p.made ∷ [])))
  | inr e ↦
      let held : elem w p.held ≡ true = ground (arith, e, there) in
      h.served w held (
        ground (
          arith,
          free,
          elem-append w (retain_held p.held p.waiters) (p.made ∷ []),
          elem-retain_held w p.held p.waiters held,
        ))
]

Served-drain_idle :
    (p : Progress)
    → IsFair p
    → p.pending ≡ 0
    → Served (p.made ∷ p.held) (retain_held p.held p.waiters) ((p.made, result_of p.error) ∷ p.told)
Served-drain_idle p h z w there free = elim (Bool-cases (p.made == w)) [
  | inl e ↦ (result_of p.error, ground (arith, e))
  | inr e ↦
      let held : elem w p.held ≡ true = ground (arith, e, there) in
      let (r, l) =
        h.served w held (ground (arith, free, elem-retain_held w p.held p.waiters held)) in
      (r, ground (arith, e, l))
]

drain-IsFair : (p : Progress) → IsFair p → IsFair (drain p).0
unfolding drain
drain-IsFair p h = elim (Bool-cases (p.pending == 0)) [
  | inl e ↦
      let zero : p.pending ≡ 0 = (nat_beq_iff p.pending 0).0 e in
      rw e (record { idle = λ z. ground (arith, h.idle zero); served = Served-drain_idle p h zero })
  | inr e ↦ rw e (record { idle = λ z. absurd (ground (arith, e)); served = Served-drain_busy p h })
]

Step-IsFair : {p q : Progress} → Step p q → IsFair p → IsFair q
unfolding fail
Step-IsFair (submits p small) h = record { idle = λ z. absurd (omega arith); served = h.served }
Step-IsFair (completes r p) h = complete-IsFair r p h
Step-IsFair (fails e p) h = wake_waiters-IsFair _ h.served
Step-IsFair (drains p) h = drain-IsFair p h
Step-IsFair (drops w p) h = record {
  idle = h.idle;
  served = λ v there free. h.served v (ground (arith, there, elem-retain_ne w v p.held)) free;
}

Reaches-IsFair : {p q : Progress} → IsFair p → Reaches p q → IsFair q
Reaches-IsFair h here = h
Reaches-IsFair h (after r s) = Step-IsFair s (Reaches-IsFair h r)

-- After whatever calls in whatever order, with fewer than 2 ^ 64 releases pending at a time, drains
-- wait only while releases are pending, and each drain that is still held and waits no more was told
-- a result.
pub new-IsFair : (p : Progress) → Reaches new p → IsFair p
new-IsFair p = Reaches-IsFair (record { idle = λ e. refl; served = λ w h n. absurd (cc) })
