-- ===== src/Rpc/Broadcast.antt =====
-- src/core/corsa_runtime/src/broadcast.rs: a sender with a queue for each subscriber. The lock of
-- the list makes each call atomic; waiting with a timeout is not modelled.
use corsa_bind.Common.{
  ℕ, suc, Bool, true, false, Option, none, some, List, [], ◌∷◌, ◌++◌, length, ◌≡◌, refl, arith,
}

-- A subscriber: whether its receiver is still held, and the values that wait in its queue.
pub record Subscriber (T : Type 0) : Type 0 where
  pub held : Bool
  pub queue : List T

module _ {T : Type 0} where
  abbrev pub subscribe : List (Subscriber T) → List (Subscriber T)
  subscribe subscribers = subscribers ++ record { held = true; queue = [] } ∷ []

  -- The new list of subscribers, and the count of those that the value was delivered to.
  unfoldable pub send : T → List (Subscriber T) → List (Subscriber T) × ℕ
  send value [] = ([], 0)
  send value (s ∷ subscribers) =
      let (kept, delivered) = send value subscribers in
      elim s.held [
        | true ↦ (record s { queue = s.queue ++ value ∷ [] } ∷ kept, suc delivered)
        | false ↦ (kept, delivered)
      ]

  -- `recv`, at a queue that is not empty.
  abbrev pub receive : Subscriber T → Option (T × Subscriber T)
  receive s = elim s.queue [ [] ↦ none | v ∷ queue ↦ some (v, record s { queue = queue }) ]

  abbrev pub held_only : List (Subscriber T) → List (Subscriber T)
  held_only [] = []
  held_only (s ∷ subscribers) = elim s.held [
    | true ↦ s ∷ held_only subscribers
    | false ↦ held_only subscribers
  ]

  abbrev pub add_to_all : T → List (Subscriber T) → List (Subscriber T)
  add_to_all v [] = []
  add_to_all v (s ∷ ss) = record s { queue = s.queue ++ v ∷ [] } ∷ add_to_all v ss

  -- A value that is sent comes last into the queue of each subscriber whose receiver is held, the
  -- other subscribers are dropped, and the count is that of the subscribers that are left.
  pub send-add_to_all :
      (value : T) (subscribers : List (Subscriber T))
      → (send value subscribers).0 ≡ add_to_all value (held_only subscribers)
        × (send value subscribers).1 ≡ length (send value subscribers).0
  unfolding send
  send-add_to_all value [] = (refl, refl)
  send-add_to_all value (s ∷ subscribers) =
      let (a, b) = send-add_to_all value subscribers in (ground (arith, a), ground (arith, b))
