-- ===== src/Lsp/Overlay/Server.antt =====
-- A server that builds its documents from the notifications, with the edits of virtual_document.rs.
use corsa_bind.Common.{
  Option, none, some, List, [], ◌∷◌, ◌++◌, String, string_eq, ◌==◌, lookup, insert, remove,
  lookup-insert, lookup-remove, ◌≡◌, refl, arith, Bool-cases, Option-cases, inl, inr,
}
use corsa_bind.Core.Error.{ok, err, Result-cases}
use corsa_bind.Lsp.Document.{VirtualChange, VirtualDocument, apply_all, apply_changes}
use corsa_bind.Lsp.Overlay.{Notification, did_open, did_change, did_close, change}

abbrev pub Documents : Type 0
Documents = List (String × VirtualDocument)

-- What an LSP server does on a notification; `none` is a notification that it has to refuse.
unfoldable pub serve : Notification → Documents → Option Documents
serve (did_open d) docs = some (insert d.uri d docs)
serve (did_change uri version events) docs = elim (lookup uri docs) [
  | none ↦ none
  | some d ↦ elim (apply_all d.text events) [
    | none ↦ none
    | some (text, err e) ↦ none
    | some (text, ok _) ↦ some (insert uri (record d { text = text; version = version }) docs)
  ]
]
serve (did_close uri) docs = some (remove uri docs)

unfoldable pub serve_all : List Notification → Documents → Option Documents
unfolding serve
serve_all [] docs = some docs
serve_all (n ∷ ns) docs = elim (serve n docs) [ none ↦ none | some docs' ↦ serve_all ns docs' ]

pub serve_all-append :
    (ns : List Notification) (n : Notification) (docs docs' docs'' : Documents)
    → serve_all ns docs ≡ some docs'
    → serve n docs' ≡ some docs''
    → serve_all (ns ++ n ∷ []) docs ≡ some docs''
unfolding serve_all
serve_all-append [] n docs docs' docs'' h s =
    let q : docs ≡ docs' = cc in ground (arith, rw (← q) at s)
serve_all-append (m ∷ ns) n docs docs' docs'' h s = elim (Option-cases (serve m docs)) [
  | inl x ↦ ground (arith, x)
  | inr (mid, x) ↦ ground (arith, x, serve_all-append ns n mid docs' docs'')
]

pub keyed-insert :
    (docs : Documents) (uri : String) (d : VirtualDocument)
    → d.uri ≡ uri
    → ((k : String) (e : VirtualDocument) → lookup k docs ≡ some e → e.uri ≡ k)
    → (k : String) (e : VirtualDocument) → lookup k (insert uri d docs) ≡ some e
    → e.uri ≡ k
keyed-insert docs uri d at h k e l = elim (Bool-cases (uri == k)) [
  | inl q ↦ ground (arith, q, lookup-insert uri k d docs, string_eq.beq_iff uri k)
  | inr q ↦ h k e (ground (arith, q, lookup-insert uri k d docs))
]

pub keyed-remove :
    (docs : Documents) (uri : String)
    → ((k : String) (e : VirtualDocument) → lookup k docs ≡ some e → e.uri ≡ k)
    → (k : String) (e : VirtualDocument) → lookup k (remove uri docs) ≡ some e
    → e.uri ≡ k
keyed-remove docs uri h k e l = elim (Bool-cases (uri == k)) [
  | inl q ↦ absurd (ground (arith, q, lookup-remove uri k docs))
  | inr q ↦ h k e (ground (arith, q, lookup-remove uri k docs))
]

pub remove-eq_self :
    (uri : String) (docs : Documents) → lookup uri docs ≡ none → remove uri docs ≡ docs
remove-eq_self uri [] h = refl
remove-eq_self uri ((k, d) ∷ docs) h = ground (arith, remove-eq_self uri docs)

-- What a batch that succeeds made of the document.
pub apply_changes_ok :
    (d d' : VirtualDocument) (changes events : List VirtualChange) (event : VirtualChange)
    → apply_changes d changes ≡ some (d', ok (event ∷ events))
    → (apply_all d.text (event ∷ events) ≡ some (d'.text, ok tt))
      × (d' ≡ record d { text = d'.text; version = d'.version })
unfolding apply_changes
apply_changes_ok d d' [] events event h = absurd (cc)
apply_changes_ok d d' (change ∷ changes) events event h =
    elim (Option-cases (apply_all d.text (change ∷ changes))) [
      | inl n ↦ absurd (ground (arith, n))
      | inr ((text', r), a) ↦ elim (Result-cases r) [
        | inr (e, b) ↦ absurd (ground (arith, a, b))
        | inl (u, b) ↦ (ground (arith, a, b), ground (arith, a, b))
      ]
    ]
