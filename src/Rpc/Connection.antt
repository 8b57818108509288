-- ===== src/Rpc/Connection.antt =====
-- src/core/corsa_jsonrpc/src/jsonrpc/connection.rs: the state that the callers, the reader thread
-- and the writer thread share, and what each does to it. Observers and logs are not modelled, nor
-- is the spawning and joining of the threads.
pub mod Loops
pub mod Branches
pub mod Channels
pub mod Requests
pub mod Steps
pub mod Once
pub mod Tests
use corsa_bind.Common.{
  ℕ, suc, ◌+◌, ◌%◌, ◌^◌, ◌-◌, Bool, true, false, Option, none, some, List, [], ◌∷◌, ◌++◌, String,
  string_eq, ◌⊎◌, inl, inr, ltb, leb, if◌then◌else◌, length, lookup, insert, remove,
}
use corsa_bind.Core.Error.{
  CorsaError, protocol, closed, rpc, timed_out, clone_for_pending, Result, ok, err,
}
use corsa_bind.Core.Text.{literal, with_str}
use corsa_bind.Core.Value.{Value, or_null}
use corsa_bind.Core.Wire.{RequestId, integer, id_eq, RpcResponseError, RawMessage}
use corsa_bind.Rpc.Broadcast.{Subscriber, send}
use corsa_bind.Rpc.Message.{
  request_message, request_without_params, response_message, error_message, notification_message,
  notification_without_params,
}

pub data InboundEvent : Type 0 where
  request : RequestId → String → Value → InboundEvent
  notification : String → Value → InboundEvent

-- How a handler's call ends, `catch_unwind` included.
pub data Handled : Type 0 where
  answered : Value → Handled
  refused : RpcResponseError → Handled
  unwound : Handled

abbrev pub Handlers : Type 0
Handlers = String → Option (Value → Handled)

-- `Inner`. A reply channel is its number, in the order in which channels are made; `answers` holds
-- what was sent on them, the newest first. The outbound queue outlives its sender: `has_sender` says
-- that the sender is still there, `has_writer` that the writer still holds the receiver.
pub record Connection : Type 0 where
  pub closed : Bool
  pub next_id : ℕ
  pub channels : ℕ
  pub pending : List (RequestId × ℕ)
  pub answers : List (ℕ × Result Value)
  pub has_sender : Bool
  pub has_writer : Bool
  pub queue : List RawMessage
  pub capacity : ℕ
  pub events : List (Subscriber InboundEvent)

-- `try_spawn_with_options`, once both threads run.
abbrev pub spawn : ℕ → Connection
spawn outbound_capacity = record {
  closed = false;
  next_id = 0;
  channels = 0;
  pending = [];
  answers = [];
  has_sender = true;
  has_writer = true;
  queue = [];
  capacity = if ltb outbound_capacity 1 then 1 else outbound_capacity;
  events = [];
}

abbrev pub method_not_found : String → RpcResponseError
method_not_found method = record {
  code = 2 ^ 64 - 32601;
  message = with_str "method not found: {}" method;
  payload = none;
}

abbrev pub handler_panic_error : String → RpcResponseError
handler_panic_error method = record {
  code = 2 ^ 64 - 32603;
  message = with_str "local JSON-RPC handler `{}` panicked" method;
  payload = none;
}

unfoldable pub send_outbound : RawMessage → Connection → Connection × Result (Unit {0})
send_outbound message c =
    if c.has_sender
    then (if c.has_writer
        then (if ltb (length c.queue) c.capacity
            then (record c { queue = c.queue ++ message ∷ [] }, ok tt)
            else (c, err (protocol (literal "jsonrpc outbound queue is full"))))
        else (c, err (closed "jsonrpc writer")))
    else (c, err (closed "jsonrpc writer"))

-- The id and the reply channel of a new request, put into `pending`.
unfoldable pub register : Connection → Connection × RequestId × ℕ
register c =
    let id = integer ((c.next_id + 1) % 2 ^ 64) in
    (
      record c {
        next_id = (c.next_id + 1) % 2 ^ 64;
        channels = c.channels + 1;
        pending = insert id c.channels c.pending;
      },
      id,
      c.channels,
    )

unfoldable pub unregister : RequestId → Connection → Connection
unregister id c = record c { pending = remove id c.pending }

abbrev pub message_of : RequestId → String → Option Value → RawMessage
message_of id method none = request_without_params id method
message_of id method (some params) = request_message id method params

-- `request_optional_value`, up to the wait for the reply: the channel to wait on.
unfoldable pub begin_request :
    String → Option Value → Connection → Connection × Result (RequestId × ℕ)
unfolding register send_outbound unregister
begin_request method params c =
    let (registered, id, channel) = register c in
    let (sent, r) = send_outbound (message_of id method params) registered in
    if c.closed
    then (c, err (closed "jsonrpc connection"))
    else elim r [ ok _ ↦ (sent, ok (id, channel)) | err e ↦ (unregister id sent, err e) ]

-- The wait that ran out.
abbrev pub request_timed_out : RequestId → String → ℕ → Connection → Connection × CorsaError
request_timed_out id method ms c =
    (unregister id c, timed_out (with_str "jsonrpc request `{}`" method) ms)

abbrev pub notify : String → Value → Connection → Connection × Result (Unit {0})
notify method params = send_outbound (notification_message method params)

abbrev pub notify_without_params : String → Connection → Connection × Result (Unit {0})
notify_without_params method = send_outbound (notification_without_params method)

abbrev pub respond : RequestId → Value → Connection → Connection × Result (Unit {0})
respond id body = send_outbound (response_message id body)

abbrev pub respond_error :
    RequestId → RpcResponseError → Connection → Connection × Result (Unit {0})
respond_error id error = send_outbound (error_message id error)

-- The loop over `pending.drain()`.
unfoldable pub fail_all :
    CorsaError → List (RequestId × ℕ) → List (ℕ × Result Value) → List (ℕ × Result Value)
fail_all error [] answers = answers
fail_all error ((id, channel) ∷ pending) answers =
    fail_all error pending ((channel, err (clone_for_pending error)) ∷ answers)

unfoldable pub fail_pending : CorsaError → Connection → Connection
unfolding fail_all
fail_pending error c = record c { pending = []; answers = fail_all error c.pending c.answers }

unfoldable pub fail_transport : CorsaError → Connection → Connection
unfolding fail_pending
fail_transport error c = fail_pending error (record c { closed = true; has_sender = false })

unfoldable pub begin_close : Connection → Connection
unfolding fail_pending
begin_close c =
    let failed = fail_pending (closed "jsonrpc connection") (record c { closed = true }) in
    if c.closed then record c { has_sender = false } else record failed { has_sender = false }

-- What an inbound request is answered with.
abbrev pub invoke_handler : String → (Value → Handled) → Value → Value ⊎ RpcResponseError
invoke_handler method handler params = elim (handler params) [
  | answered v ↦ inl v
  | refused e ↦ inr e
  | unwound ↦ inr (handler_panic_error method)
]

abbrev pub reply_message : RequestId → Value ⊎ RpcResponseError → RawMessage
reply_message id (inl value) = response_message id value
reply_message id (inr error) = error_message id error
