-- ===== src/Rpc.antt =====
-- src/core/corsa_jsonrpc: framing, messages and the connection.
pub mod Frame
pub mod Message
pub mod Broadcast
pub mod Connection
pub mod Tests
