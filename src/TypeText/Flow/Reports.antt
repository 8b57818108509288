-- ===== src/TypeText/Flow/Reports.antt =====
-- What `has_unsafe_any_flow` of unsafe_flow.rs reports of texts.
use corsa_bind.Common.{
  ◌≡◌, refl, ap, arith, false, ◌||◌, Bool-cases, inl, inr, some, List, [], ◌∷◌, elem, ◌and_then◌,
}
use corsa_bind.TypeText.Chars.{Chars, chars_eq, trim, is_empty}
use corsa_bind.TypeText.Parse.{SimpleType, Types, nil, cons, parse_texts_loop, parse_type_texts}
use corsa_bind.TypeText.Parse.Total.{parse_type_text-Parses}
use corsa_bind.TypeText.Flow.{
  contains_any_like, any_contains, flows_to_any, flows_from_any, flow_between, has_unsafe_any_flow,
}
use corsa_bind.TypeText.Flow.Safety.{or-false, is_unsafe_flow_safe}

parse_texts_loop-some :
    (seen texts : List Chars) → (ts : Types) × (parse_texts_loop seen texts ≡ some ts)
unfolding parse_texts_loop
parse_texts_loop-some seen [] = (nil, refl)
parse_texts_loop-some seen (text ∷ texts) =
    elim (Bool-cases (is_empty (trim text) || elem (trim text) seen)) [
      | inl h ↦ let (ts, e) = parse_texts_loop-some seen texts in (ts, rw (parse_texts_loop, h) e)
      | inr h ↦
          let (t, p) = parse_type_text-Parses (trim text) in
          let (ts, e) = parse_texts_loop-some (trim text ∷ seen) texts in
          (cons t ts, rw (parse_texts_loop, h, p, ◌and_then◌, e) refl)
    ]

-- Any texts are parsed.
pub parse_type_texts-some : (texts : List Chars) → (ts : Types) × (parse_type_texts texts ≡ some ts)
unfolding parse_type_texts
parse_type_texts-some texts = parse_texts_loop-some [] texts

flows_to_any_safe :
    (s : SimpleType) (targets : Types)
    → contains_any_like s ≡ false
    → flows_to_any s targets ≡ false
flows_to_any_safe s nil h = refl
flows_to_any_safe s (cons t targets) h =
    ground (arith, is_unsafe_flow_safe s t h, flows_to_any_safe s targets h)

flows_from_any_safe :
    (sources targets : Types)
    → any_contains sources ≡ false
    → flows_from_any sources targets ≡ false
unfolding any_contains
flows_from_any_safe nil targets h = refl
flows_from_any_safe (cons s sources) targets h =
    let (here, behind) = or-false (contains_any_like s) (any_contains sources) h in
    rw (flows_to_any_safe s targets here) (flows_from_any_safe sources targets behind)

flow_between_safe :
    (sources targets : Types) → any_contains sources ≡ false → flow_between sources targets ≡ false
flow_between_safe nil targets h = refl
flow_between_safe (cons s sources) nil h = h
flow_between_safe (cons s sources) (cons t targets) h =
    flows_from_any_safe (cons s sources) (cons t targets) h

-- Sources whose types have no `any` in them, at any depth, are reported as safe, whatever the targets.
pub has_unsafe_any_flow_safe :
    (source_texts target_texts : List Chars) (sources : Types)
    → parse_type_texts source_texts ≡ some sources
    → any_contains sources ≡ false
    → has_unsafe_any_flow source_texts target_texts ≡ some false
unfolding has_unsafe_any_flow
has_unsafe_any_flow_safe source_texts target_texts sources e h =
    let (targets, f) = parse_type_texts-some target_texts in
    rw (e, ◌and_then◌, f) (ap some (flow_between_safe sources targets h))
