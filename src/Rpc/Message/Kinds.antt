-- ===== src/Rpc/Message/Kinds.antt =====
-- Which envelopes have which kind.
use corsa_bind.Common.{
  String, Option, none, some, string_eq, ◌==◌, ◌≡◌, ◌↔◌, refl, sym, ◌∙◌, arith, Bool-cases, inl,
  inr,
}
use corsa_bind.Core.Error.{ok}
use corsa_bind.Core.Value.{Value, or_null}
use corsa_bind.Core.Wire.{RequestId, RpcResponseError, RawMessage}
use corsa_bind.Rpc.Message.{
  jsonrpc_version, MessageKind, request, notification, response, kind_of, into_kind,
}

-- What JSON-RPC 2.0 says of the members of each kind: a request has an id and a method, a
-- notification a method alone, and a response an id and exactly one of a result and an error.
pub Shape :
    MessageKind
    → Option RequestId
    → Option String
    → Option Value
    → Option RpcResponseError
    → Value
    → Type 0
Shape (request i n p) id method result error params =
    (id ≡ some i) × (method ≡ some n) × (result ≡ none) × (error ≡ none) × (params ≡ p)
Shape (notification n p) id method result error params =
    (id ≡ none) × (method ≡ some n) × (result ≡ none) × (error ≡ none) × (params ≡ p)
Shape (response i (some r) none) id method result error params =
    (id ≡ some i) × (method ≡ none) × (result ≡ some r) × (error ≡ none)
Shape (response i none (some e)) id method result error params =
    (id ≡ some i) × (method ≡ none) × (result ≡ none) × (error ≡ some e)
Shape (response i none none) id method result error params = ⊥
Shape (response i (some r) (some e)) id method result error params = ⊥

pub Describes : MessageKind → RawMessage → Type 0
Describes k m = (m.jsonrpc ≡ "2.0") × Shape k m.id m.method m.result m.error (or_null m.params)

kind_of-Shape :
    (id : Option RequestId) (method : Option String) (result : Option Value)
    (error : Option RpcResponseError) (params : Value) (m : RawMessage) (k : MessageKind)
    → kind_of id method result error params m ≡ ok k
    → Shape k id method result error params
unfolding Shape
kind_of-Shape (some id) (some method) none none params m k h =
    let e : request id method params ≡ k = cc in rw (← e) (refl, refl, refl, refl, refl)
kind_of-Shape none (some method) none none params m k h =
    let e : notification method params ≡ k = cc in rw (← e) (refl, refl, refl, refl, refl)
kind_of-Shape (some id) none (some result) none params m k h =
    let e : response id (some result) none ≡ k = cc in rw (← e) (refl, refl, refl, refl)
kind_of-Shape (some id) none none (some error) params m k h =
    let e : response id none (some error) ≡ k = cc in rw (← e) (refl, refl, refl, refl)
kind_of-Shape _ _ _ _ params m k h = absurd (cc)

Shape-kind_of :
    (id : Option RequestId) (method : Option String) (result : Option Value)
    (error : Option RpcResponseError) (params : Value) (m : RawMessage) (k : MessageKind)
    → Shape k id method result error params
    → kind_of id method result error params m ≡ ok k
unfolding Shape
Shape-kind_of id method result error params m (request i n p) (a, b, c, d, e) =
    rw (a, b, c, d, e) refl
Shape-kind_of id method result error params m (notification n p) (a, b, c, d, e) =
    rw (a, b, c, d, e) refl
Shape-kind_of id method result error params m (response i (some r) none) (a, b, c, d) =
    rw (a, b, c, d) refl
Shape-kind_of id method result error params m (response i none (some x)) (a, b, c, d) =
    rw (a, b, c, d) refl
Shape-kind_of id method result error params m (response i none none) h = absurd h
Shape-kind_of id method result error params m (response i (some r) (some x)) h = absurd h

into_kind-version : (m : RawMessage) (k : MessageKind) → into_kind m ≡ ok k → m.jsonrpc ≡ "2.0"
unfolding into_kind
into_kind-version m k h = elim (Bool-cases (m.jsonrpc == jsonrpc_version)) [
  | inl e ↦ (string_eq.beq_iff m.jsonrpc jsonrpc_version).0 e
  | inr e ↦ ground (arith, e)
]

into_kind-2 :
    (m : RawMessage)
    → m.jsonrpc ≡ "2.0"
    → into_kind m ≡ kind_of m.id m.method m.result m.error (or_null m.params) m
unfolding into_kind
into_kind-2 m h = rw ((string_eq.beq_iff m.jsonrpc jsonrpc_version).1 h) refl

-- `into_kind` gives an envelope a kind exactly if its version is 2.0 and its members are those that
-- JSON-RPC 2.0 gives to that kind, parameters that are missing being null.
pub into_kind_iff : (m : RawMessage) (k : MessageKind) → (into_kind m ≡ ok k) ↔ Describes k m
unfolding Describes
into_kind_iff m k = (
  λ h.
      let v = into_kind-version m k h in
      (
        v,
        kind_of-Shape m.id m.method m.result m.error (or_null m.params) m k
            (sym (into_kind-2 m v) ∙ h),
      ),
  λ (v, h). into_kind-2 m v ∙ Shape-kind_of m.id m.method m.result m.error (or_null m.params) m k h,
)
