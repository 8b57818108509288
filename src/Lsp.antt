-- ===== src/Lsp.antt =====
-- src/core/corsa_lsp: virtual documents and their overlay.
pub mod Document
pub mod Overlay
