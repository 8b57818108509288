-- ===== src/Rpc/Connection/Branches.antt =====
-- The branches of the operations of connection.rs, as equations.
use corsa_bind.Common.{
  ℕ, true, false, Option, none, some, ◌∷◌, String, lookup, remove, ◌==◌, nat_eq, ◌≡◌, arith,
}
use corsa_bind.Core.Error.{CorsaError, closed, ok, err}
use corsa_bind.Core.Value.{Value}
use corsa_bind.Core.Wire.{RequestId, id_eq, RpcResponseError, RawMessage}
use corsa_bind.Rpc.Broadcast.{send}
use corsa_bind.Rpc.Connection.{
  InboundEvent, Connection, Handled, Handlers, send_outbound, register, unregister, message_of,
  begin_request, fail_pending, begin_close, method_not_found, invoke_handler, reply_message,
}
use corsa_bind.Rpc.Connection.Loops.{
  reply_of, receive_response, try_send, receive_request, receive_notification,
}
use corsa_bind.Rpc.Message.{error_message}

module _ (method : String) (params : Option Value) (c : Connection) where
  pub begin_request_closed :
      c.closed ≡ true → begin_request method params c ≡ (c, err (closed "jsonrpc connection"))
  unfolding begin_request
  begin_request_closed h = ground arith

  module _ (m : RawMessage) (is : m ≡ message_of (register c).1 method params)
      (live : c.closed ≡ false) where
    pub begin_request_sent :
        (send_outbound m (register c).0).1 ≡ ok tt
        → begin_request method params c
          ≡ ((send_outbound m (register c).0).0, ok ((register c).1, (register c).2))
    unfolding begin_request
    begin_request_sent h = ground arith

    pub begin_request_unsent :
        (e : CorsaError)
        → (send_outbound m (register c).0).1 ≡ err e
        → begin_request method params c
          ≡ (unregister (register c).1 (send_outbound m (register c).0).0, err e)
    unfolding begin_request
    begin_request_unsent e h = ground arith

pub begin_close_closed :
    (c : Connection) → c.closed ≡ true → begin_close c ≡ record c { has_sender = false }
unfolding begin_close
begin_close_closed c h = ground arith

pub begin_close_open :
    (c : Connection)
    → c.closed ≡ false
    → begin_close c
      ≡ record (fail_pending (closed "jsonrpc connection") (record c { closed = true })) {
        has_sender = false;
      }
unfolding begin_close
begin_close_open c h = ground arith

pub receive_response_known :
    (id : RequestId) (result : Option Value) (error : Option RpcResponseError) (c : Connection)
    (channel : ℕ)
    → lookup id c.pending ≡ some channel
    → receive_response id result error c ≡ record c {
      pending = remove id c.pending;
      answers = (channel, reply_of result error) ∷ c.answers;
    }
unfolding receive_response
receive_response_known id result error c channel h = ground arith

pub receive_response_unknown :
    (id : RequestId) (result : Option Value) (error : Option RpcResponseError) (c : Connection)
    → lookup id c.pending ≡ none
    → receive_response id result error c ≡ c
unfolding receive_response
receive_response_unknown id result error c h = ground arith

module _ (handlers : Handlers) (method : String) (params : Value) (c : Connection) where
  pub receive_request_handled :
      (id : RequestId) (handler : Value → Handled)
      → handlers method ≡ some handler
      → receive_request handlers id method params c
        ≡ (send_outbound (reply_message id (invoke_handler method handler params)) c).0
  unfolding receive_request try_send
  receive_request_handled id handler h = ground arith

  pub receive_request_heard :
      (id : RequestId)
      → handlers method ≡ none
      → ((send (InboundEvent.request id method params) c.events).1 == 0) ≡ false
      → receive_request handlers id method params c
        ≡ record c { events = (send (InboundEvent.request id method params) c.events).0 }
  unfolding receive_request
  receive_request_heard id h d = ground arith

  pub receive_request_unheard :
      (id : RequestId)
      → handlers method ≡ none
      → ((send (InboundEvent.request id method params) c.events).1 == 0) ≡ true
      → receive_request handlers id method params c
        ≡ (send_outbound
            (error_message id (method_not_found method))
            (record c { events = (send (InboundEvent.request id method params) c.events).0 })).0
  unfolding receive_request try_send
  receive_request_unheard id h d = ground arith

  pub receive_notification_handled :
      (handler : Value → Handled)
      → handlers method ≡ some handler
      → receive_notification handlers method params c ≡ c
  unfolding receive_notification
  receive_notification_handled handler h = ground arith

  pub receive_notification_unhandled :
      handlers method ≡ none
      → receive_notification handlers method params c
        ≡ record c { events = (send (InboundEvent.notification method params) c.events).0 }
  unfolding receive_notification
  receive_notification_unhandled h = ground arith
