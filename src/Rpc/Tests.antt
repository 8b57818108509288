-- ===== src/Rpc/Tests.antt =====
-- One message of message.rs, and one value through a broadcast.
use corsa_bind.Common.{ℕ, true, false, List, [], ◌∷◌}
use corsa_bind.Core.Value.{null}
use corsa_bind.Core.Wire.{integer, RawMessage}
use corsa_bind.Rpc.Broadcast.{Subscriber}
use corsa_bind.Rpc.Message.{MessageKind, request_without_params}

abbrev ping : RawMessage
ping = request_without_params (integer 7) "ping"

abbrev ping_kind : MessageKind
ping_kind = MessageKind.request (integer 7) "ping" null

abbrev subscribers : List (Subscriber ℕ)
subscribers = record { held = true; queue = 1 ∷ [] } ∷ record { held = false; queue = [] } ∷ []
