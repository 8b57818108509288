-- ===== src/Lsp/Overlay/Tests.antt =====
-- An overlay with one document open.
use corsa_bind.Common.{[], ◌∷◌, codes}
use corsa_bind.Core.Error.{Result, ok}
use corsa_bind.Lsp.Document.{VirtualDocument, replace, new}
use corsa_bind.Lsp.Overlay.{Notification, did_open, did_change, did_close, Overlay}

abbrev first : VirtualDocument
first = new "untitled:/a.ts" "typescript" (codes "one")

abbrev second : VirtualDocument
second = new "untitled:/b.ts" "typescript" (codes "two")

abbrev edited : VirtualDocument
edited = record first { version = 2; text = codes "1" }

abbrev open_one : Overlay
open_one = record { documents = ("untitled:/a.ts", first) ∷ []; sent = did_open first ∷ [] }

abbrev both : Overlay
both = record {
  documents = ("untitled:/a.ts", first) ∷ ("untitled:/b.ts", second) ∷ [];
  sent = did_open first ∷ did_open second ∷ [];
}

abbrev one_edited : Overlay
one_edited = record {
  documents = ("untitled:/a.ts", edited) ∷ [];
  sent = did_open first ∷ did_change "untitled:/a.ts" 2 (replace (codes "1") ∷ []) ∷ [];
}

abbrev none_left : Overlay
none_left = record { documents = []; sent = did_open first ∷ did_close "untitled:/a.ts" ∷ [] }

abbrev sends : Notification → Result (Unit {0})
sends n = ok tt
