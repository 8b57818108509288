-- ===== src/Client.antt =====
-- src/core/corsa_client: the msgpack codec, the release of snapshots, and filesystem callbacks.
pub mod Msgpack
pub mod Release
pub mod Callbacks
pub mod ContentMapper
pub mod SourceFile
pub mod FileMemo
pub mod Handles
pub mod SymbolIdentity
pub mod Tests
