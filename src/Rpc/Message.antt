-- ===== src/Rpc/Message.antt =====
-- src/core/corsa_jsonrpc/src/jsonrpc/message.rs: the messages that are built, and the kind that an
-- envelope has. (De)serializing an envelope is the JSON library's.
pub mod Kinds
use corsa_bind.Common.{
  String, Bool, true, false, Option, none, some, string_eq, ◌==◌, if◌then◌else◌,
}
use corsa_bind.Core.Error.{protocol, unexpected_message, Result, ok, err}
use corsa_bind.Core.Text.{with_str}
use corsa_bind.Core.Value.{Value, or_null}
use corsa_bind.Core.Wire.{RequestId, RpcResponseError, RawMessage}

abbrev pub jsonrpc_version : String
jsonrpc_version = "2.0"

pub data MessageKind : Type 0 where
  request : RequestId → String → Value → MessageKind
  notification : String → Value → MessageKind
  response : RequestId → Option Value → Option RpcResponseError → MessageKind

abbrev pub request_message : RequestId → String → Value → RawMessage
request_message id method params = record {
  jsonrpc = jsonrpc_version;
  id = some id;
  method = some method;
  params = some params;
  result = none;
  error = none;
}

abbrev pub request_without_params : RequestId → String → RawMessage
request_without_params id method = record {
  jsonrpc = jsonrpc_version;
  id = some id;
  method = some method;
  params = none;
  result = none;
  error = none;
}

abbrev pub notification_message : String → Value → RawMessage
notification_message method params = record {
  jsonrpc = jsonrpc_version;
  id = none;
  method = some method;
  params = some params;
  result = none;
  error = none;
}

abbrev pub notification_without_params : String → RawMessage
notification_without_params method = record {
  jsonrpc = jsonrpc_version;
  id = none;
  method = some method;
  params = none;
  result = none;
  error = none;
}

abbrev pub response_message : RequestId → Value → RawMessage
response_message id result = record {
  jsonrpc = jsonrpc_version;
  id = some id;
  method = none;
  params = none;
  result = some result;
  error = none;
}

abbrev pub error_message : RequestId → RpcResponseError → RawMessage
error_message id error = record {
  jsonrpc = jsonrpc_version;
  id = some id;
  method = none;
  params = none;
  result = none;
  error = some error;
}

-- The `match` of `into_kind`, with the parameters and the error of the last arm.
abbrev pub kind_of :
    Option RequestId
    → Option String
    → Option Value
    → Option RpcResponseError
    → Value
    → RawMessage
    → Result MessageKind
kind_of (some id) (some method) none none params m = ok (request id method params)
kind_of none (some method) none none params m = ok (notification method params)
kind_of (some id) none (some result) none params m = ok (response id (some result) none)
kind_of (some id) none none (some error) params m = ok (response id none (some error))
kind_of _ _ _ _ params m = err (unexpected_message m)

unfoldable pub into_kind : RawMessage → Result MessageKind
into_kind m =
    if m.jsonrpc == jsonrpc_version
    then kind_of m.id m.method m.result m.error (or_null m.params) m
    else err (protocol (with_str "unsupported jsonrpc version: {}" m.jsonrpc))
