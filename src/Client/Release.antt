-- ===== src/Client/Release.antt =====
-- `ReleaseProgress` of src/core/corsa_client/src/api/snapshot_release_drain.rs: the count of
-- releases that have no response yet, and the drains that wait for it to reach zero. Its lock makes
-- each call atomic. The future's polling is the runtime's.
pub mod Waiters
use corsa_bind.Common.{
  ℕ, ◌+◌, ◌-◌, ◌%◌, ◌^◌, Bool, true, false, Option, none, some, List, [], ◌∷◌, ◌++◌, ◌==◌, Eq,
  nat_eq, if◌then◌else◌, elem, retain_ne,
}
use corsa_bind.Core.Error.{CorsaError, clone_for_pending, Result, ok, err}

-- A drain is its number. `held` are the drains that still hold their sender, so that the weak
-- reference in `waiters` can be upgraded; `told` is what was sent to drains, the newest first.
pub record Progress : Type 0 where
  pub pending : ℕ
  pub error : Option CorsaError
  pub waiters : List ℕ
  pub held : List ℕ
  pub made : ℕ
  pub told : List (ℕ × Result (Unit {0}))

abbrev pub new : Progress
new = record { pending = 0; error = none; waiters = []; held = []; made = 0; told = [] }

-- `ProgressState::result`
abbrev pub result_of : Option CorsaError → Result (Unit {0})
result_of none = ok tt
result_of (some error) = err (clone_for_pending error)

-- `get_or_insert`
abbrev pub or_insert : Option CorsaError → CorsaError → Option CorsaError
or_insert none error = some error
or_insert (some first) error = some first

-- The loop of `wake_waiters`, over the waiters that are drained.
unfoldable pub wake_all :
    Result (Unit {0})
    → List ℕ
    → List ℕ
    → List (ℕ × Result (Unit {0}))
    → List (ℕ × Result (Unit {0}))
wake_all r held [] told = told
wake_all r held (w ∷ waiters) told =
    let rest = wake_all r held waiters in if elem w held then rest ((w, r) ∷ told) else rest told

abbrev pub wake_waiters : Progress → Progress
wake_waiters p = record p {
  waiters = [];
  told = wake_all (result_of p.error) p.held p.waiters p.told;
}

abbrev pub submit : Progress → Progress
submit p = record p { pending = (p.pending + 1) % 2 ^ 64 }

abbrev pub error_after : Result (Unit {0}) → Option CorsaError → Option CorsaError
error_after (ok _) error = error
error_after (err e) error = or_insert error e

unfoldable pub complete : Result (Unit {0}) → Progress → Progress
unfolding wake_all
complete result p =
    let counted : Progress = record p {
      pending = p.pending - 1;
      error = error_after result p.error;
    } in
    if p.pending - 1 == 0 then wake_waiters counted else counted

unfoldable pub fail : CorsaError → Progress → Progress
unfolding wake_all
fail error p = wake_waiters (record p { pending = 0; error = or_insert p.error error })

-- `waiters.retain(|waiter| waiter.strong_count() > 0)`
abbrev pub retain_held : List ℕ → List ℕ → List ℕ
retain_held held [] = []
retain_held held (w ∷ waiters) =
    if elem w held then w ∷ retain_held held waiters else retain_held held waiters

unfoldable pub drain : Progress → Progress × ℕ
drain p =
    let live = retain_held p.held p.waiters in
    let added : Progress = record p { waiters = live; held = p.made ∷ p.held; made = p.made + 1 } in
    (
      if p.pending == 0
          then record added { told = (p.made, result_of p.error) ∷ p.told }
          else record added { waiters = live ++ p.made ∷ [] },
      p.made,
    )

-- A drain whose future is dropped, or whose wait is over.
abbrev pub drop_drain : ℕ → Progress → Progress
drop_drain w p = record p { held = retain_ne w p.held }
