-- ===== src/Rpc/Connection/Requests.antt =====
-- What a request does to the shared state, when it is taken and when it is not, and what its reply
-- does.
use corsa_bind.Common.{
  ℕ, ◌+◌, ◌<◌, ◌≤◌, true, false, Option, none, some, List, [], ◌∷◌, ◌++◌, String, length,
  length-append, lookup, insert, remove, lookup-insert, lookup-remove, ◌==◌, Eq, nat_eq,
  if◌then◌else◌, ◌≡◌, refl, arith, inl, inr, Bool-cases,
}
use corsa_bind.Core.Error.{CorsaError, ok, err, Result-cases}
use corsa_bind.Core.Value.{Value}
use corsa_bind.Core.Wire.{RequestId, id_eq, RpcResponseError, RawMessage}
use corsa_bind.Rpc.Connection.{
  Connection, send_outbound, register, unregister, message_of, begin_request,
}
use corsa_bind.Rpc.Connection.Branches.{
  begin_request_closed, begin_request_sent, begin_request_unsent, receive_response_known,
  receive_response_unknown,
}
use corsa_bind.Rpc.Connection.Loops.{reply_of, receive_response}

module _ {K V : Type 0} ⦃e : Eq K⦄ where
  pub remove-insert :
      (k : K) (v : V) (m : List (K × V)) → lookup k m ≡ none → remove k (insert k v m) ≡ m
  remove-insert k v [] h = ground (arith, (e.beq_iff k k).1 refl)
  remove-insert k v ((j, w) ∷ m) h = ground (arith, remove-insert k v m)

  lookup-insert_self : (k : K) (v : V) (m : List (K × V)) → lookup k (insert k v m) ≡ some v
  lookup-insert_self k v m = ground (arith, lookup-insert k k v m, (e.beq_iff k k).1 refl)

  lookup-remove_self : (k : K) (m : List (K × V)) → lookup k (remove k m) ≡ none
  lookup-remove_self k m = ground (arith, lookup-remove k k m, (e.beq_iff k k).1 refl)

send_outbound-ok :
    (m : RawMessage) (c : Connection)
    → (send_outbound m c).1 ≡ ok tt
    → ((send_outbound m c).0 ≡ record c { queue = c.queue ++ m ∷ [] })
      × (c.has_sender ≡ true)
      × (length c.queue < c.capacity)
unfolding send_outbound
send_outbound-ok m c h = ground arith

send_outbound-err :
    (m : RawMessage) (c : Connection) (e : CorsaError)
    → (send_outbound m c).1 ≡ err e
    → (send_outbound m c).0 ≡ c
unfolding send_outbound
send_outbound-err m c e h = ground arith

-- A request that is taken: its message is the last of the queue, which is not over its capacity, its
-- id waits for a reply on a channel of its own, other requests wait as before, and no reply was sent.
pub record IsTaken (method : String) (params : Option Value) (c c' : Connection) (id : RequestId)
    (channel : ℕ) : Type 0 where
  pub queued : c'.queue ≡ c.queue ++ message_of id method params ∷ []
  pub bounded : length c'.queue ≤ c.capacity
  pub waits : lookup id c'.pending ≡ some channel
  pub own_channel : (channel ≡ c.channels) × (c'.channels ≡ c.channels + 1)
  pub pendings :
      (j : RequestId) → lookup j c'.pending ≡ (if id == j then some channel else lookup j c.pending)
  pub same_answers : c'.answers ≡ c.answers

taken :
    (method : String) (params : Option Value) (c : Connection)
    → (send_outbound (message_of (register c).1 method params) (register c).0).1 ≡ ok tt
    → IsTaken method params c
        (send_outbound (message_of (register c).1 method params) (register c).0).0
        (register c).1
        (register c).2
unfolding register
taken method params c h =
    let (sent, s, room) =
      send_outbound-ok (message_of (register c).1 method params) (register c).0 h in
    rw sent (record {
      queued = refl;
      bounded = omega (arith, length-append c.queue (message_of (register c).1 method params ∷ []));
      waits = lookup-insert_self (register c).1 c.channels c.pending;
      own_channel = (refl, refl);
      pendings = λ j. lookup-insert (register c).1 j c.channels c.pending;
      same_answers = refl;
    })

-- A request that is taken was sent on an open connection: its message is then the last of the queue,
-- which is within its capacity, its id waits for the reply on a channel of its own, and other
-- requests wait as before.
pub begin_request-eq-ok :
    (method : String) (params : Option Value) (c c' : Connection) (id : RequestId) (channel : ℕ)
    → begin_request method params c ≡ (c', ok (id, channel))
    → (c.closed ≡ false) × IsTaken method params c c' id channel
begin_request-eq-ok method params c c' id channel h = elim (Bool-cases c.closed) [
  | inl shut ↦ absurd (cc (h, begin_request_closed method params c shut))
  | inr live ↦
      let m = message_of (register c).1 method params in
      elim (Result-cases (send_outbound m (register c).0).1) [
        | inr (x, f) ↦ absurd (cc (h, begin_request_unsent method params c m refl live x f))
        | inl (a, f) ↦
            let sent = begin_request_sent method params c m refl live f in
            let q : (send_outbound m (register c).0).0 ≡ c' = cc (h, sent) in
            let i : (register c).1 ≡ id = cc (h, sent) in
            let k : (register c).2 ≡ channel = cc (h, sent) in
            (live, rw (← q, ← i, ← k) (taken method params c f))
      ]
]

unregister-register :
    (c : Connection)
    → lookup (register c).1 c.pending ≡ none
    → ((unregister (register c).1 (register c).0).pending ≡ c.pending)
      × ((unregister (register c).1 (register c).0).queue ≡ c.queue)
      × ((unregister (register c).1 (register c).0).answers ≡ c.answers)
unfolding register unregister
unregister-register c fresh = (remove-insert (register c).1 c.channels c.pending fresh, refl, refl)

-- A request that is not taken, with an id that is not waiting, leaves the waiting requests, the
-- queue and the answers as they were.
pub begin_request-eq-err :
    (method : String) (params : Option Value) (c c' : Connection) (e : CorsaError)
    → lookup (register c).1 c.pending ≡ none
    → begin_request method params c ≡ (c', err e)
    → (c'.pending ≡ c.pending) × (c'.queue ≡ c.queue) × (c'.answers ≡ c.answers)
begin_request-eq-err method params c c' e fresh h = elim (Bool-cases c.closed) [
  | inl shut ↦
      let same : c ≡ c' = cc (h, begin_request_closed method params c shut) in
      rw (← same) (refl, refl, refl)
  | inr live ↦
      let m = message_of (register c).1 method params in
      elim (Result-cases (send_outbound m (register c).0).1) [
        | inl (a, f) ↦ absurd (cc (h, begin_request_sent method params c m refl live f))
        | inr (x, f) ↦
            let unsent = begin_request_unsent method params c m refl live x f in
            let same = send_outbound-err m (register c).0 x f in
            let q : unregister (register c).1 (register c).0 ≡ c' = cc (h, unsent, same) in
            rw (← q) (unregister-register c fresh)
      ]
]

-- The reply to a request that waits is sent on its channel, and is the error that came, or else the
-- result, which is null if there is none. The request waits no more and the others wait as before; a
-- second reply, or one to a request that does not wait, changes nothing.
pub receive_response_once :
    (id : RequestId) (result result' : Option Value) (error error' : Option RpcResponseError)
    (c : Connection) (channel : ℕ)
    → lookup id c.pending ≡ some channel
    → (lookup channel (receive_response id result error c).answers ≡ some (reply_of result error))
      × ((j : RequestId)
          → lookup j (receive_response id result error c).pending
            ≡ (if id == j then none else lookup j c.pending))
      × (receive_response id result' error' (receive_response id result error c)
          ≡ receive_response id result error c)
receive_response_once id result result' error error' c channel h =
    let same = receive_response_known id result error c channel h in
    rw same (
      ground (arith, (nat_eq.beq_iff channel channel).1 refl),
      λ j. lookup-remove id j c.pending,
      receive_response_unknown id result' error' _ (lookup-remove_self id c.pending),
    )
