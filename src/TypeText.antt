-- ===== src/TypeText.antt =====
-- src/core/corsa_core/src/utils: splitting the texts of types, classifying them, parsing them, and the
-- flow of `any` between them.
pub mod Chars
pub mod Split
pub mod Kinds
pub mod Parse
pub mod Flow
pub mod Tests
