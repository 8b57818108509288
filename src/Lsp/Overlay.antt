-- ===== src/Lsp/Overlay.antt =====
-- src/core/corsa_lsp/src/lsp/overlay.rs: the open documents, and the notifications that tell the
-- server of them. The LSP client is a parameter that says how each notification's sending ends; each
-- call runs to its end.
pub mod Server
pub mod Mirror
pub mod Tests
use corsa_bind.Common.{
  ℕ, Bool, true, false, Option, none, some, List, [], ◌∷◌, ◌++◌, String, string_eq, if◌then◌else◌,
  lookup, insert, remove, contains_key,
}
use corsa_bind.Core.Error.{CorsaError, protocol, Result, ok, err}
use corsa_bind.Core.Text.{with_str}
use corsa_bind.Lsp.Document.{Chars, VirtualChange, VirtualDocument, replace, apply_changes}

pub data Notification : Type 0 where
  did_open : VirtualDocument → Notification
  did_change : String → ℕ → List VirtualChange → Notification
  did_close : String → Notification

-- `sent` are the notifications that were sent, the oldest first.
pub record Overlay : Type 0 where
  pub documents : List (String × VirtualDocument)
  pub sent : List Notification

abbrev pub new : Overlay
new = record { documents = []; sent = [] }

abbrev pub document : String → Overlay → Option VirtualDocument
document uri o = lookup uri o.documents

module _ (outcome : Notification → Result (Unit {0})) where
  abbrev pub notify : Notification → Overlay → Overlay × Result (Unit {0})
  notify n o = elim (outcome n) [
    | err e ↦ (o, err e)
    | ok _ ↦ (record o { sent = o.sent ++ n ∷ [] }, ok tt)
  ]

  unfoldable pub open_document : VirtualDocument → Overlay → Overlay × Result VirtualDocument
  open_document d o =
      let (told, r) = notify (did_open d) o in
      if contains_key d.uri o.documents
      then (o, err (protocol (with_str "virtual document is already open: {}" d.uri)))
      else elim r [
        | err e ↦ (told, err e)
        | ok _ ↦ (record told { documents = insert d.uri d told.documents }, ok d)
      ]

  -- The end of `change`, with what `apply_changes` made of the document in place.
  abbrev pub tell :
      String
      → VirtualDocument
      → Result (List VirtualChange)
      → Overlay
      → Overlay × Result VirtualDocument
  tell uri d (err e) o = (record o { documents = insert uri d o.documents }, err e)
  tell uri d (ok []) o = (o, ok d)
  tell uri d (ok (event ∷ events)) o =
      let changed : Overlay = record o { documents = insert uri d o.documents } in
      let (told, r) = notify (did_change d.uri d.version (event ∷ events)) changed in
      elim r [ err e ↦ (told, err e) | ok _ ↦ (told, ok d) ]

  -- `none` is a panic of an edit.
  unfoldable pub change :
      String → List VirtualChange → Overlay → Option (Overlay × Result VirtualDocument)
  change uri changes o = elim (lookup uri o.documents) [
    | none ↦ some (o, err (protocol (with_str "unknown virtual document: {}" uri)))
    | some d ↦ elim (apply_changes d changes) [
      | none ↦ none
      | some (d', r) ↦ some (tell uri d' r o)
    ]
  ]

  abbrev pub replace_text : String → Chars → Overlay → Option (Overlay × Result VirtualDocument)
  replace_text uri text = change uri (replace text ∷ [])

  unfoldable pub close_document : String → Overlay → Overlay × Result (Option VirtualDocument)
  close_document uri o =
      let closed : Overlay = record o { documents = remove uri o.documents } in
      elim (lookup uri o.documents) [
        | none ↦ (closed, ok none)
        | some d ↦
            let (told, r) = notify (did_close d.uri) closed in
            elim r [ err e ↦ (told, err e) | ok _ ↦ (told, ok (some d)) ]
      ]
