-- ===== src/Rpc/Connection/Steps.antt =====
-- What one thread does to the shared state of connection.rs at a time, and the operations as
-- sequences of such steps, between which those of other threads may stand.
use corsa_bind.Common.{
  true, false, Option, List, [], ◌∷◌, String, ◌==◌, nat_eq, ◌≡◌, refl, sym, ap, subst, inl, inr,
  Bool-cases, Option-cases,
}
use corsa_bind.Core.Error.{CorsaError, closed, Result-cases}
use corsa_bind.Core.Value.{Value}
use corsa_bind.Core.Wire.{RequestId, RpcResponseError, RawMessage}
use corsa_bind.Rpc.Broadcast.{send, subscribe}
use corsa_bind.Rpc.Connection.{
  InboundEvent, Connection, Handlers, send_outbound, register, unregister, message_of,
  begin_request, fail_pending, fail_transport, begin_close, method_not_found, invoke_handler,
  reply_message,
}
use corsa_bind.Rpc.Connection.Branches.{
  begin_request_closed, begin_request_sent, begin_request_unsent, begin_close_closed,
  begin_close_open, receive_request_handled, receive_request_heard, receive_request_unheard,
  receive_notification_handled, receive_notification_unhandled,
}
use corsa_bind.Rpc.Connection.Loops.{
  receive_response, receive_request, receive_notification, receive,
}
use corsa_bind.Rpc.Message.{MessageKind, error_message}

-- Each step holds one lock, or writes one atomic.
pub data Step : Connection → Connection → Type 0 where
  registers : (c : Connection) → Step c (register c).0
  sends : (m : RawMessage) (c : Connection) → Step c (send_outbound m c).0
  unregisters : (id : RequestId) (c : Connection) → Step c (unregister id c)
  replies :
      (id : RequestId) (result : Option Value) (error : Option RpcResponseError) (c : Connection)
      → Step c (receive_response id result error c)
  publishes :
      (e : InboundEvent) (c : Connection) → Step c (record c { events = (send e c.events).0 })
  subscribes : (c : Connection) → Step c (record c { events = subscribe c.events })
  closes : (c : Connection) → Step c (record c { closed = true })
  drops_sender : (c : Connection) → Step c (record c { has_sender = false })
  drains : (e : CorsaError) (c : Connection) → Step c (fail_pending e c)
  takes :
      (m : RawMessage) (rest : List RawMessage) (c : Connection)
      → c.queue ≡ m ∷ rest
      → Step c (record c { queue = rest })
  ends_writer : (c : Connection) → Step c (record c { has_writer = false; queue = [] })

pub data Steps (c : Connection) : Connection → Type 0 where
  stay : Steps c c
  next : {d e : Connection} → Steps c d → Step d e → Steps c e

pub Steps-trans : {c d e : Connection} → Steps c d → Steps d e → Steps c e
Steps-trans r stay = r
Steps-trans r (next s t) = next (Steps-trans r s) t

ends :
    {R : Type 0} {c d : Connection} {r : R} {p : Connection × R}
    → Steps c d
    → p ≡ (d, r)
    → Steps c p.0
ends {R} {c} {d} s h = subst (Steps c) (sym (ap (λ (x : Connection × R). x.0) h)) s

abbrev pub one : {c d : Connection} → Step c d → Steps c d
one s = next stay s

begin_request-Steps :
    (method : String) (params : Option Value) (c : Connection)
    → Steps c (begin_request method params c).0
begin_request-Steps method params c = elim (Bool-cases c.closed) [
  | inl e ↦ ends stay (begin_request_closed method params c e)
  | inr e ↦
      let m = message_of (register c).1 method params in
      let sent = next (one (registers c)) (sends m (register c).0) in
      elim (Result-cases (send_outbound m (register c).0).1) [
        | inl (a, r) ↦ ends sent (begin_request_sent method params c m refl e r)
        | inr (x, r) ↦
            ends (next sent (unregisters (register c).1 _))
              (begin_request_unsent method params c m refl e x r)
      ]
]

pub fail_transport-Steps : (e : CorsaError) (c : Connection) → Steps c (fail_transport e c)
unfolding fail_transport
fail_transport-Steps e c = next (next (one (closes c)) (drops_sender _)) (drains e _)

begin_close-Steps : (c : Connection) → Steps c (begin_close c)
begin_close-Steps c = elim (Bool-cases c.closed) [
  | inl e ↦ rw (begin_close_closed c e) (one (drops_sender c))
  | inr e ↦
      rw (begin_close_open c e)
        (next (next (one (closes c)) (drains (closed "jsonrpc connection") _)) (drops_sender _))
]

receive_request-Steps :
    (handlers : Handlers) (id : RequestId) (method : String) (params : Value) (c : Connection)
    → Steps c (receive_request handlers id method params c)
receive_request-Steps handlers id method params c = elim (Option-cases (handlers method)) [
  | inr (handler, e) ↦
      rw (receive_request_handled handlers method params c id handler e)
        (one (sends (reply_message id (invoke_handler method handler params)) c))
  | inl e ↦
      let event : InboundEvent = InboundEvent.request id method params in
      let published = one (publishes event c) in
      elim (Bool-cases ((send event c.events).1 == 0)) [
        | inl z ↦
            rw (receive_request_unheard handlers method params c id e z)
              (next published (sends (error_message id (method_not_found method)) _))
        | inr z ↦ rw (receive_request_heard handlers method params c id e z) published
      ]
]

receive_notification-Steps :
    (handlers : Handlers) (method : String) (params : Value) (c : Connection)
    → Steps c (receive_notification handlers method params c)
receive_notification-Steps handlers method params c = elim (Option-cases (handlers method)) [
  | inr (handler, e) ↦ rw (receive_notification_handled handlers method params c handler e) stay
  | inl e ↦
      rw (receive_notification_unhandled handlers method params c e)
        (one (publishes (InboundEvent.notification method params) c))
]

pub receive-Steps :
    (handlers : Handlers) (c : Connection) (kind : MessageKind) → Steps c (receive handlers kind c)
receive-Steps handlers c (MessageKind.request i n p) = receive_request-Steps handlers i n p c
receive-Steps handlers c (MessageKind.notification n p) = receive_notification-Steps handlers n p c
receive-Steps handlers c (MessageKind.response i r x) = one (replies i r x c)

-- A new request, a request that timed out, a message that is sent, a message that came in, a failed
-- transport and a close are sequences of steps.
pub operations-Steps :
    (method : String) (params : Option Value) (id : RequestId) (m : RawMessage) (e : CorsaError)
    (handlers : Handlers) (kind : MessageKind) (c : Connection)
    → Steps c (begin_request method params c).0
      × Steps c (unregister id c)
      × Steps c (send_outbound m c).0
      × Steps c (receive handlers kind c)
      × Steps c (fail_transport e c)
      × Steps c (begin_close c)
operations-Steps method params id m e handlers kind c = (
  begin_request-Steps method params c,
  one (unregisters id c),
  one (sends m c),
  receive-Steps handlers c kind,
  fail_transport-Steps e c,
  begin_close-Steps c,
)
