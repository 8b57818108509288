-- ===== src/TypeText/Flow.antt =====
-- src/core/corsa_core/src/utils/unsafe_flow.rs: the flow of `any` from one type to another.
pub mod Safety
pub mod Reports
use corsa_bind.Common.{
  ◌==◌, Bool, true, false, not, ◌&&◌, ◌||◌, Option, some, none, List, if◌then◌else◌, ◌and_then◌,
}
use corsa_bind.TypeText.Chars.{Chars, chars_eq, is_text}
use corsa_bind.TypeText.Parse.{
  SimpleType, Types, any_type, never_type, unknown_type, primitive, array, tuple, generic, union,
  intersection, other, nil, cons, parse_type_texts,
}

abbrev pub is_array_like_base : Chars → Bool
is_array_like_base base = is_text "Array" base || is_text "ReadonlyArray" base

abbrev pub is_promise_like_base : Chars → Bool
is_promise_like_base base = is_text "Promise" base || is_text "PromiseLike" base

abbrev pub same_container_family : Chars → Chars → Bool
same_container_family left right =
    (left == right)
    || ((is_array_like_base left && is_array_like_base right)
        || (is_promise_like_base left && is_promise_like_base right))

unfoldable mutual
  pub is_permissive_target : SimpleType → Bool
  is_permissive_target any_type = true
  is_permissive_target unknown_type = true
  is_permissive_target never_type = true
  is_permissive_target (union types) = any_permissive types
  is_permissive_target _ = false

  pub any_permissive : Types → Bool
  any_permissive nil = false
  any_permissive (cons t types) = is_permissive_target t || any_permissive types

unfoldable mutual
  pub contains_any_like : SimpleType → Bool
  contains_any_like any_type = true
  contains_any_like (array inner) = contains_any_like inner
  contains_any_like (tuple items) = any_contains items
  contains_any_like (union items) = any_contains items
  contains_any_like (intersection items) = any_contains items
  contains_any_like (generic base args) = any_contains args
  contains_any_like _ = false

  pub any_contains : Types → Bool
  any_contains nil = false
  any_contains (cons t types) = contains_any_like t || any_contains types

-- `args.len() == 1`, and the lengths of two lists are the same.
abbrev pub is_same_length : Types → Types → Bool
is_same_length nil nil = true
is_same_length (cons t ts) (cons u us) = is_same_length ts us
is_same_length _ _ = false

-- The match of `is_unsafe_flow`, one function for each kind of source and of target.
unfoldable mutual
  unfolding is_permissive_target

  pub is_unsafe_flow : SimpleType → SimpleType → Bool
  is_unsafe_flow any_type target = not (is_permissive_target target)
  is_unsafe_flow (union types) target =
      if is_permissive_target target then false else any_member_flow types target
  is_unsafe_flow (intersection types) target =
      if is_permissive_target target then false else any_member_flow types target
  is_unsafe_flow (array item) (array target) = is_unsafe_flow item target
  is_unsafe_flow (array item) (generic base (cons target nil)) =
      if is_array_like_base base then is_unsafe_flow item target else false
  is_unsafe_flow (tuple items) (tuple targets) = any_zipped_flow items targets
  is_unsafe_flow (tuple items) (array target) = any_member_flow items target
  is_unsafe_flow (tuple items) (generic base (cons target nil)) =
      if is_array_like_base base then any_member_flow items target else false
  is_unsafe_flow (generic base args) (generic target_base targets) =
      if same_container_family base target_base && is_same_length args targets
      then any_zipped_flow args targets
      else false
  is_unsafe_flow (generic base (cons arg nil)) (array target) =
      if is_array_like_base base then is_unsafe_flow arg target else false
  is_unsafe_flow _ _ = false

  pub any_member_flow : Types → SimpleType → Bool
  any_member_flow nil target = false
  any_member_flow (cons t types) target = is_unsafe_flow t target || any_member_flow types target

  pub any_zipped_flow : Types → Types → Bool
  any_zipped_flow (cons t types) (cons u targets) =
      is_unsafe_flow t u || any_zipped_flow types targets
  any_zipped_flow _ _ = false

-- The targets that are not permissive, against one source.
abbrev pub flows_to_any : SimpleType → Types → Bool
flows_to_any source nil = false
flows_to_any source (cons t targets) =
    if not (is_permissive_target t) && is_unsafe_flow source t
    then true
    else flows_to_any source targets

abbrev pub flows_from_any : Types → Types → Bool
flows_from_any nil targets = false
flows_from_any (cons s sources) targets = flows_to_any s targets || flows_from_any sources targets

abbrev pub flow_between : Types → Types → Bool
flow_between nil targets = false
flow_between sources nil = any_contains sources
flow_between sources targets = flows_from_any sources targets

-- `none` is fuel that ran out.
unfoldable pub has_unsafe_any_flow : List Chars → List Chars → Option Bool
has_unsafe_any_flow source_texts target_texts = parse_type_texts source_texts and_then λ sources.
    parse_type_texts target_texts and_then λ targets. some (flow_between sources targets)

abbrev pub is_unsafe_assignment : List Chars → List Chars → Option Bool
is_unsafe_assignment source_texts target_texts = has_unsafe_any_flow source_texts target_texts

abbrev pub is_unsafe_return : List Chars → List Chars → Option Bool
is_unsafe_return source_texts target_texts = has_unsafe_any_flow source_texts target_texts
