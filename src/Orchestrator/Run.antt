-- ===== src/Orchestrator/Run.antt =====
-- How a call of the orchestrator ends: with a value, waiting for a worker that is still being
-- spawned, or by a panic.
use corsa_bind.Common.{◌≡◌, refl}

pub data Run {ℓ} (A : Type ℓ) : Type ℓ where
  done : A → Run A
  waiting panicked : Run A

infixl 5 ◌>>=◌
abbrev pub ◌>>=◌ {ℓ κ} : {A : Type ℓ} {B : Type κ} → Run A → (A → Run B) → Run B
done a >>= f = f a
waiting >>= f = waiting
panicked >>= f = panicked

pub bind-eq-done {ℓ κ} :
    {A : Type ℓ} {B : Type κ} (m : Run A) (f : A → Run B) (b : B)
    → (m >>= f) ≡ done b
    → (a : A) × (m ≡ done a) × (f a ≡ done b)
bind-eq-done (done a) f b h = (a, refl, h)
bind-eq-done waiting f b h = cc
bind-eq-done panicked f b h = cc
