-- ===== src/Rpc/Connection/Channels.antt =====
-- The reply channels that stand in a map or in a log, as lists of their numbers.
use corsa_bind.Common.{
  ℕ, true, false, some, List, [], ◌∷◌, ◌==◌, nat_eq, lookup, insert, remove, elem, IsDistinct, ◌≡◌,
  ◌⊎◌, inl, inr, refl, arith, Bool-cases,
}
use corsa_bind.Core.Wire.{RequestId, id_eq}

abbrev pub waiting : List (RequestId × ℕ) → List ℕ
waiting [] = []
waiting ((id, channel) ∷ pending) = channel ∷ waiting pending

abbrev pub replied : {R : Type 0} → List (ℕ × R) → List ℕ
replied [] = []
replied ((channel, r) ∷ answers) = channel ∷ replied answers

pub waiting-insert :
    (k : ℕ) (id : RequestId) (channel : ℕ) (p : List (RequestId × ℕ))
    → elem k (waiting (insert id channel p)) ≡ true
    → (k ≡ channel) ⊎ (elem k (waiting p) ≡ true)
waiting-insert k id channel [] h = inl (ground (arith, nat_eq.beq_iff channel k))
waiting-insert k id channel ((i, c) ∷ p) h = elim (Bool-cases (i == id)) [
  | inl e ↦ ground (arith, e, nat_eq.beq_iff channel k)
  | inr e ↦ ground (arith, e, waiting-insert k id channel p)
]

pub waiting-remove :
    (k : ℕ) (id : RequestId) (p : List (RequestId × ℕ))
    → elem k (waiting (remove id p)) ≡ true
    → elem k (waiting p) ≡ true
waiting-remove k id [] h = h
waiting-remove k id ((i, c) ∷ p) h = ground (arith, waiting-remove k id p)

pub IsDistinct-insert :
    (id : RequestId) (channel : ℕ) (p : List (RequestId × ℕ))
    → IsDistinct (waiting p)
    → elem channel (waiting p) ≡ false
    → IsDistinct (waiting (insert id channel p))
IsDistinct-insert id channel [] d h = (refl, tt)
IsDistinct-insert id channel ((i, c) ∷ p) d h = elim (Bool-cases (i == id)) [
  | inl e ↦ ground (arith, e)
  | inr e ↦ elim (Bool-cases (elem c (waiting (insert id channel p)))) [
    | inl t ↦ ground (arith, waiting-insert c id channel p t, nat_eq.beq_iff c channel)
    | inr f ↦ ground (arith, e, f, IsDistinct-insert id channel p d.1)
  ]
]

pub IsDistinct-remove :
    (id : RequestId) (p : List (RequestId × ℕ))
    → IsDistinct (waiting p)
    → IsDistinct (waiting (remove id p))
IsDistinct-remove id [] d = tt
IsDistinct-remove id ((i, c) ∷ p) d = elim (Bool-cases (i == id)) [
  | inl e ↦ ground (arith, e, IsDistinct-remove id p d.1)
  | inr e ↦ elim (Bool-cases (elem c (waiting (remove id p)))) [
    | inl t ↦ ground (arith, waiting-remove c id p t)
    | inr f ↦ ground (arith, e, f, IsDistinct-remove id p d.1)
  ]
]

pub lookup-waiting :
    (id : RequestId) (channel : ℕ) (p : List (RequestId × ℕ))
    → lookup id p ≡ some channel
    → elem channel (waiting p) ≡ true
lookup-waiting id channel [] h = cc
lookup-waiting id channel ((i, c) ∷ p) h =
    ground (arith, lookup-waiting id channel p, nat_eq.beq_iff c channel)

-- The channel of a request that is taken out waits no more.
pub remove-waiting :
    (id : RequestId) (channel : ℕ) (p : List (RequestId × ℕ))
    → IsDistinct (waiting p)
    → lookup id p ≡ some channel
    → elem channel (waiting (remove id p)) ≡ false
remove-waiting id channel [] d h = cc
remove-waiting id channel ((i, c) ∷ p) d h = elim (Bool-cases (i == id)) [
  | inl e ↦ elim (Bool-cases (elem channel (waiting (remove id p)))) [
    | inl t ↦ ground (arith, e, waiting-remove channel id p t)
    | inr f ↦ ground (arith, e, f)
  ]
  | inr e ↦ ground (
    arith,
    e,
    remove-waiting id channel p d.1,
    lookup-waiting id channel p,
    nat_eq.beq_iff c channel,
  )
]
