-- ===== src/Rpc/Connection/Loops.antt =====
-- The reader's loop and the writer's of connection.rs. The JSON library and the handlers, which the
-- callers give, are parameters.
pub mod Ends
pub mod Pipeline
use corsa_bind.Common.{
  ℕ, zero, suc, ◌==◌, nat_eq, Bool, true, false, Option, none, some, List, [], ◌∷◌, String, Bytes,
  lookup, remove, if◌then◌else◌, ◌⊎◌, inl, inr,
}
use corsa_bind.Core.Error.{CorsaError, rpc, Result, ok, err, ◌>>=◌}
use corsa_bind.Core.Value.{Value, or_null}
use corsa_bind.Core.Wire.{RequestId, id_eq, RpcResponseError, RawMessage}
use corsa_bind.Io.Stream.{Reader, Writer}
use corsa_bind.Rpc.Broadcast.{send}
use corsa_bind.Rpc.Connection.{
  InboundEvent, Connection, Handlers, send_outbound, method_not_found, fail_transport,
  invoke_handler, reply_message,
}
use corsa_bind.Rpc.Frame.{read_frame, write_frame}
use corsa_bind.Rpc.Frame.Header.{Search}
use corsa_bind.Rpc.Message.{MessageKind, into_kind, error_message}

-- `match error { Some(error) => Err(…), None => Ok(result.unwrap_or(Null)) }`
abbrev pub reply_of : Option Value → Option RpcResponseError → Result Value
reply_of result (some error) = err (rpc error)
reply_of result none = ok (or_null result)

unfoldable pub receive_response :
    RequestId → Option Value → Option RpcResponseError → Connection → Connection
receive_response id result error c = elim (lookup id c.pending) [
  | none ↦ c
  | some channel ↦ record c {
    pending = remove id c.pending;
    answers = (channel, reply_of result error) ∷ c.answers;
  }
]

-- A send whose result is dropped: `let _ = self.send_outbound(…)`.
unfoldable pub try_send : RawMessage → Connection → Connection
unfolding send_outbound
try_send message c = (send_outbound message c).0

unfoldable pub receive_request : Handlers → RequestId → String → Value → Connection → Connection
unfolding try_send
receive_request handlers id method params c = elim (handlers method) [
  | some handler ↦ try_send (reply_message id (invoke_handler method handler params)) c
  | none ↦
      let (events, delivered) = send (InboundEvent.request id method params) c.events in
      let c' : Connection = record c { events = events } in
      if delivered == 0 then try_send (error_message id (method_not_found method)) c' else c'
]

unfoldable pub receive_notification : Handlers → String → Value → Connection → Connection
receive_notification handlers method params c = elim (handlers method) [
  | some handler ↦ c
  | none ↦ record c { events = (send (InboundEvent.notification method params) c.events).0 }
]

-- What the reader does with a message that it could classify.
abbrev pub receive : Handlers → MessageKind → Connection → Connection
receive handlers (MessageKind.response id result error) = receive_response id result error
receive handlers (MessageKind.request id method params) = receive_request handlers id method params
receive handlers (MessageKind.notification method params) =
    receive_notification handlers method params

module _ (searches : Search) (handlers : Handlers) (from_slice : Bytes → Result RawMessage) where
  -- One frame, decoded and classified.
  unfoldable pub read_message : Reader → Result (MessageKind × Reader)
  read_message reader = do
    (payload, after) ← read_frame searches reader
    message ← from_slice payload
    kind ← into_kind message
    ok (kind, after)

  -- The loop, on fuel; `none` is fuel that ran out.
  unfoldable pub read_loop : ℕ → Reader → Connection → Option Connection
  unfolding read_message receive_response receive_request receive_notification
  read_loop zero reader c = none
  read_loop (suc fuel) reader c = elim (read_message reader) [
    | err e ↦ some (fail_transport e c)
    | ok (kind, after) ↦ read_loop fuel after (receive handlers kind c)
  ]

module _ (to_vec : RawMessage → Result Bytes) where
  -- The loop over the messages that the queue holds, with the writer that it leaves. `none` is the
  -- panic of `write_frame`. A failure fails the transport; else the loop ends when the queue is
  -- empty and its sender is gone.
  unfoldable pub write_loop : List RawMessage → Writer → Option (Writer × Result (Unit {0}))
  write_loop [] w = some (w, ok tt)
  write_loop (message ∷ messages) w = elim (to_vec message) [
    | err e ↦ some (w, err e)
    | ok body ↦ elim (write_frame body w) [
      | none ↦ none
      | some (w', ok _) ↦ write_loop messages w'
      | some (w', err e) ↦ some (w', err e)
    ]
  ]

  -- The writer thread, up to the next wait for a message.
  unfoldable pub writer_runs : Connection → Writer → Option (Connection × Writer)
  unfolding write_loop
  writer_runs c w = elim (write_loop c.queue w) [
    | none ↦ none
    | some (w', ok _) ↦ some (record c { queue = []; has_writer = c.has_sender }, w')
    | some (w', err e) ↦ some (fail_transport e (record c { queue = []; has_writer = false }), w')
  ]
