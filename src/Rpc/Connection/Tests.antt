-- ===== src/Rpc/Connection/Tests.antt =====
-- Requests, replies and the two loops at small inputs.
use corsa_bind.Common.{
  ◌+◌, Option, none, some, List, [], ◌∷◌, ◌++◌, Bytes, string_eq, codes, concat, lookup, Bool, true,
  false, length, take, drop, ◌==◌, nat_eq, if◌then◌else◌, ◌≡◌, refl, arith,
}
use corsa_bind.Core.Error.{closed, protocol, Result, ok, err}
use corsa_bind.Core.Text.{literal}
use corsa_bind.Core.Value.{Value, null}
use corsa_bind.Core.Wire.{RequestId, integer, id_eq, RpcResponseError, RawMessage}
use corsa_bind.Io.Stream.{Writer, fresh_writer}
use corsa_bind.Rpc.Connection.{
  Connection, Handlers, spawn, register, unregister, send_outbound, begin_request,
}
use corsa_bind.Rpc.Connection.Loops.{receive_response, read_loop, write_loop}
use corsa_bind.Rpc.Connection.Loops.Ends.{IsDown, read_loop-IsDown}
use corsa_bind.Rpc.Connection.Loops.Pipeline.{
  write_loop_total, Sendable, Encoded, AreFrames, receive_all, read_loop-write_loop,
}
use corsa_bind.Rpc.Connection.Once.{AnswersOnce, spawn-AnswersOnce}
use corsa_bind.Rpc.Connection.Requests.{begin_request-eq-err}
use corsa_bind.Rpc.Connection.Steps.{Steps, registers, replies, stay, next}
use corsa_bind.Rpc.Frame.{write_frame}
use corsa_bind.Rpc.Frame.Decimal.{append_usize, digits}
use corsa_bind.Rpc.Frame.Tests.{plain}
use corsa_bind.Rpc.Message.{MessageKind, into_kind, response_message}

abbrev no_handlers : Handlers
no_handlers method = none

abbrev first : RequestId
first = integer 1

-- One request on a new connection, and the same once its reply is in.
abbrev asked : Connection
asked = (begin_request "ping" none (spawn 1)).0

took : begin_request "ping" none (spawn 1) ≡ (asked, ok (first, 0))
unfolding begin_request send_outbound register
took = refl

waits : lookup first asked.pending ≡ some 0
unfolding begin_request send_outbound register
waits = refl

-- The queue holds one message.
refused : begin_request "ping" none asked ≡ (
  (begin_request "ping" none asked).0,
  err (protocol (literal "jsonrpc outbound queue is full")),
)
unfolding begin_request send_outbound register unregister
refused = refl

second_is_fresh : lookup (register asked).1 asked.pending ≡ none
unfolding begin_request send_outbound register
second_is_fresh = refl

begin_request-eq-err_example :
    ((begin_request "ping" none asked).0.pending ≡ asked.pending)
    × ((begin_request "ping" none asked).0.queue ≡ asked.queue)
    × ((begin_request "ping" none asked).0.answers ≡ asked.answers)
begin_request-eq-err_example =
    begin_request-eq-err "ping" none asked (begin_request "ping" none asked).0
      (protocol (literal "jsonrpc outbound queue is full")) second_is_fresh refused

spawn-AnswersOnce_example :
    AnswersOnce (receive_response first (some null) none (register (spawn 1)).0)
spawn-AnswersOnce_example =
    spawn-AnswersOnce 1 (receive_response first (some null) none (register (spawn 1)).0)
      (next (next stay (registers (spawn 1))) (replies first (some null) none _))

-- The JSON texts of an answer with null and of an error with the data null. The data null is read back as
-- no data.
abbrev answer_text : Bytes
answer_text = codes "{\"jsonrpc\":\"2.0\",\"id\":1,\"result\":null}"

abbrev error_text : Bytes
error_text =
    codes "{\"jsonrpc\":\"2.0\",\"id\":1,\"error\":{\"code\":7,\"message\":\"no\",\"data\":null}}"

abbrev no_with : Option Value → RpcResponseError
no_with sent_with = record { code = 7; message = literal "no"; payload = sent_with }

abbrev answer : RawMessage
answer = response_message first null

abbrev error_with : Option Value → RawMessage
error_with sent_with = record {
  jsonrpc = "2.0";
  id = some first;
  method = none;
  params = none;
  result = none;
  error = some (no_with sent_with);
}

abbrev same_bytes : Bytes → Bytes → Bool
same_bytes [] [] = true
same_bytes (a ∷ left) (b ∷ right) = if a == b then same_bytes left right else false
same_bytes _ _ = false

-- The JSON library at these two messages.
abbrev encode : Option Value → Option RpcResponseError → Result Bytes
encode (some null) none = ok answer_text
encode none (some e) = ok error_text
encode _ _ = err (closed "codec")

abbrev to_vec : RawMessage → Result Bytes
to_vec m = encode m.result m.error

abbrev from_slice : Bytes → Result RawMessage
from_slice body =
    if same_bytes body answer_text
    then ok answer
    else if same_bytes body error_text
    then ok (error_with none)
    else err (closed "codec")

abbrev messages : List RawMessage
messages = answer ∷ error_with (some null) ∷ []

abbrev kinds : List MessageKind
kinds =
    MessageKind.response first (some null) none
    ∷ MessageKind.response first none (some (no_with none))
    ∷ []

abbrev both : Bytes
both =
    (codes "Content-Length: 38\r\n\r\n" ++ answer_text)
    ++ (codes "Content-Length: 70\r\n\r\n" ++ error_text)

abbrev sent : Writer
sent = record { written = both; flushed = length both; outcomes = [] }

writes_both : write_loop to_vec messages fresh_writer ≡ some (sent, ok tt)
unfolding write_loop write_frame append_usize digits
writes_both = refl

sendable : Sendable to_vec from_slice messages kinds
unfolding Sendable into_kind
sendable = (
  (answer_text, refl, omega arith, answer, refl, refl),
  ((error_text, refl, omega arith, error_with none, refl, refl), tt),
)

-- The frames come in two chunks and are followed by one more byte.
abbrev chunks : List Bytes
chunks = take 9 both ∷ (drop 9 both ++ 67 ∷ []) ∷ []

read_loop-write_loop_example :
    (left : List Bytes) × (read_loop plain no_handlers from_slice
        (2 + 5)
        (record { chunks = chunks; ending = none })
        asked
      ≡ read_loop plain no_handlers from_slice 5
          (record { chunks = left; ending = none })
          (receive_all no_handlers kinds asked))
    × (concat left ≡ 67 ∷ [])
read_loop-write_loop_example =
    read_loop-write_loop plain no_handlers to_vec from_slice messages kinds none (67 ∷ []) chunks
      sent 5 asked sendable writes_both (omega arith, (omega arith, tt)) refl

read_loop-IsDown_example :
    (d : Connection) × (read_loop plain no_handlers from_slice 200
        (record { chunks = chunks; ending = none })
        asked
      ≡ some d)
    × Steps asked d
    × IsDown d
read_loop-IsDown_example =
    read_loop-IsDown plain no_handlers from_slice 200 (record { chunks = chunks; ending = none })
      asked (omega arith)

encoded : Encoded to_vec messages (answer_text ∷ error_text ∷ [])
unfolding Encoded
encoded = (refl, omega arith, (refl, omega arith, tt))

write_loop_total_example :
    (w : Writer) × (write_loop to_vec messages fresh_writer ≡ some (w, ok tt))
    × AreFrames (answer_text ∷ error_text ∷ []) w.written
write_loop_total_example = write_loop_total to_vec messages (answer_text ∷ error_text ∷ []) encoded
