-- ===== src/Client/SourceFile.antt =====
-- src/core/corsa_client/src/api/source_file.rs and source_file/header.rs: the source-file fields of an
-- encoded payload. A string is kept as its bytes; the lossy decoding of UTF-8 is not modelled.
pub mod Raw
pub mod Header
pub mod Cursor
pub mod Reader
pub mod Decode
pub mod Gives
pub mod Sections
pub mod Spans
pub mod Tests
