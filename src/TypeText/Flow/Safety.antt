-- ===== src/TypeText/Flow/Safety.antt =====
-- What `is_unsafe_flow` of unsafe_flow.rs never reports.
use corsa_bind.Common.{
  ◌≡◌, refl, arith, Bool, true, false, ◌||◌, if◌then◌else◌, Bool-cases, inl, inr,
}
use corsa_bind.TypeText.Parse.{
  SimpleType, Types, any_type, array, tuple, generic, union, intersection, nil, cons,
}
use corsa_bind.TypeText.Flow.{
  is_permissive_target, any_permissive, contains_any_like, any_contains, is_unsafe_flow,
  any_member_flow, any_zipped_flow,
}

if-false : (b c : Bool) → c ≡ false → (if b then c else false) ≡ false
if-false b c h = ground arith

if_not-false : (b c : Bool) → c ≡ false → (if b then false else c) ≡ false
if_not-false b c h = ground arith

pub or-false : (b c : Bool) → (b || c) ≡ false → (b ≡ false) × (c ≡ false)
or-false b c h = ground arith

mutual
  unfolding is_unsafe_flow contains_any_like

  pub flow_of_safe : (s t : SimpleType) → contains_any_like s ≡ false → is_unsafe_flow s t ≡ false
  flow_of_safe any_type t h = absurd (cc)
  flow_of_safe (union types) t h = if_not-false _ _ (member_of_safe types t h)
  flow_of_safe (intersection types) t h = if_not-false _ _ (member_of_safe types t h)
  flow_of_safe (array item) (array target) h = flow_of_safe item target h
  flow_of_safe (array item) (generic base (cons target nil)) h =
      if-false _ _ (flow_of_safe item target h)
  flow_of_safe (tuple items) (tuple targets) h = zipped_of_safe items targets h
  flow_of_safe (tuple items) (array target) h = member_of_safe items target h
  flow_of_safe (tuple items) (generic base (cons target nil)) h =
      if-false _ _ (member_of_safe items target h)
  flow_of_safe (generic base args) (generic target_base targets) h =
      if-false _ _ (zipped_of_safe args targets h)
  flow_of_safe (generic base (cons arg nil)) (array target) h =
      if-false _ _ (flow_of_safe arg target (or-false (contains_any_like arg) false h).0)
  flow_of_safe _ _ h = refl

  member_of_safe :
      (types : Types) (t : SimpleType)
      → any_contains types ≡ false
      → any_member_flow types t ≡ false
  member_of_safe nil t h = refl
  member_of_safe (cons s types) t h = ground (
    arith,
    flow_of_safe s t (or-false (contains_any_like s) (any_contains types) h).0,
    member_of_safe types t (or-false (contains_any_like s) (any_contains types) h).1,
  )

  zipped_of_safe :
      (types targets : Types) → any_contains types ≡ false → any_zipped_flow types targets ≡ false
  zipped_of_safe (cons s types) (cons t targets) h = ground (
    arith,
    flow_of_safe s t (or-false (contains_any_like s) (any_contains types) h).0,
    zipped_of_safe types targets (or-false (contains_any_like s) (any_contains types) h).1,
  )
  zipped_of_safe _ _ h = refl

-- A type that has no `any` in it, at any depth, flows safely into every type.
pub is_unsafe_flow_safe :
    (s t : SimpleType) → contains_any_like s ≡ false → is_unsafe_flow s t ≡ false
is_unsafe_flow_safe s t h = flow_of_safe s t h

unfoldable mutual
  pub has_intersection : SimpleType → Bool
  has_intersection (array item) = has_intersection item
  has_intersection (tuple items) = any_intersection items
  has_intersection (generic base args) = any_intersection args
  has_intersection (union types) = any_intersection types
  has_intersection (intersection types) = true
  has_intersection _ = false

  pub any_intersection : Types → Bool
  any_intersection nil = false
  any_intersection (cons t types) = has_intersection t || any_intersection types

mutual
  unfolding is_unsafe_flow is_permissive_target has_intersection

  -- Into a union, only an `any` that stands in unions can flow, and it makes them permissive.
  into_union :
      (s : SimpleType) (targets : Types)
      → has_intersection s ≡ false
      → is_permissive_target s ≡ false
      → is_unsafe_flow s (union targets) ≡ false
  into_union any_type targets h p = absurd (cc)
  into_union (union types) targets h p = if_not-false _ _ (members_into_union types targets h p)
  into_union (intersection types) targets h p = absurd (cc)
  into_union _ targets h p = refl

  members_into_union :
      (types targets : Types)
      → any_intersection types ≡ false
      → any_permissive types ≡ false
      → any_member_flow types (union targets) ≡ false
  members_into_union nil targets h p = refl
  members_into_union (cons s types) targets h p = ground (
    arith,
    into_union s targets (or-false (has_intersection s) (any_intersection types) h).0
        (or-false (is_permissive_target s) (any_permissive types) p).0,
    members_into_union types targets (or-false (has_intersection s) (any_intersection types) h).1
        (or-false (is_permissive_target s) (any_permissive types) p).1,
  )

mutual
  unfolding is_unsafe_flow is_permissive_target has_intersection

  flow_to_self : (s : SimpleType) → has_intersection s ≡ false → is_unsafe_flow s s ≡ false
  flow_to_self any_type h = refl
  flow_to_self (union types) h = elim (Bool-cases (any_permissive types)) [
    | inl p ↦ rw p refl
    | inr p ↦ if_not-false _ _ (members_into_union types types h p)
  ]
  flow_to_self (intersection types) h = absurd (cc)
  flow_to_self (array item) h = flow_to_self item h
  flow_to_self (tuple items) h = zipped_to_self items h
  flow_to_self (generic base args) h = if-false _ _ (zipped_to_self args h)
  flow_to_self _ h = refl

  zipped_to_self :
      (types : Types) → any_intersection types ≡ false → any_zipped_flow types types ≡ false
  zipped_to_self nil h = refl
  zipped_to_self (cons s types) h = ground (
    arith,
    flow_to_self s (or-false (has_intersection s) (any_intersection types) h).0,
    zipped_to_self types (or-false (has_intersection s) (any_intersection types) h).1,
  )

-- A type without intersections flows safely into itself, whatever it holds.
pub is_unsafe_flow_self : (s : SimpleType) → has_intersection s ≡ false → is_unsafe_flow s s ≡ false
is_unsafe_flow_self s h = flow_to_self s h
