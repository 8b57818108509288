-- ===== src/Core.antt =====
-- The core crate's shared types: texts, JSON values, JSON-RPC messages and the error type.
pub mod Text
pub mod Value
pub mod Wire
pub mod Error
