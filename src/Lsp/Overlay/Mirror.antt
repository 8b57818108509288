-- ===== src/Lsp/Overlay/Mirror.antt =====
-- The documents that a server builds from the notifications are the documents of the overlay.
use corsa_bind.Common.{some, [], String, string_eq, lookup, ◌≡◌}
use corsa_bind.Lsp.Document.{VirtualDocument}
use corsa_bind.Lsp.Overlay.{Overlay}
use corsa_bind.Lsp.Overlay.Server.{serve_all}

-- The server's documents are the overlay's, and each stands under its own URI.
pub record InSync (o : Overlay) : Type 0 where
  pub mirror : serve_all o.sent [] ≡ some o.documents
  pub keyed : (uri : String) (d : VirtualDocument) → lookup uri o.documents ≡ some d → d.uri ≡ uri
