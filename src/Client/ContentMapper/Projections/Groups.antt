-- ===== src/Client/ContentMapper/Projections/Groups.antt =====
-- The loops over the groups of segments in content_mapper.rs push the projections of all segments, in
-- their order, each once.
use Prim.Native.Nat.{min}
use corsa_bind.Common.{
  ℕ, zero, suc, ◌+◌, ◌-◌, ◌≤◌, ◌<◌, ◌==◌, nat_eq, ◌≡◌, refl, ap, ◌∙◌, sym, Bool, true, ◌&&◌, some,
  List, [], ◌∷◌, ◌++◌, length, drop, length-drop, arith, Bool-cases, inl, inr, leb, any,
  if◌then◌else◌, elem, push_new, elem-push_new, IsDistinct, IsDistinct-push_new, All, All-split,
  subst, ◌and_then◌,
}
use corsa_bind.Client.ContentMapper.Ranges.{SpanMapFidelity, MappedPosition}
use corsa_bind.Client.ContentMapper.Features.{SpanMapFeature}
use corsa_bind.Client.ContentMapper.Segments.{
  SpanMapSegment, IsOrdered, supports, same_original_range, is_verbatim, map_verbatim_position,
}
use corsa_bind.Client.ContentMapper.Projections.{
  SegmentGroup, same_prefix, ends_at, group_loop, mapped_position_eq, mapped_through, push_group,
  push_groups,
}

-- Where an original position at a segment is in the virtual text: through a verbatim segment, as far
-- from its start, but not past its end; through another one, at its end or else at its start.
abbrev pub projection : ℕ → SpanMapSegment → MappedPosition
projection position s =
    if is_verbatim s.kind
    then record {
      position = min (s.virtual_start + (position - s.original_start)) s.virtual_end;
      fidelity = SpanMapFidelity.exact;
    }
    else record {
      position = if ends_at position s then s.virtual_end else s.virtual_start;
      fidelity = SpanMapFidelity.atom;
    }

mapped_through-projection :
    (position : ℕ) (s : SpanMapSegment)
    → IsOrdered s
    → s.original_start ≤ position
    → mapped_through (ends_at position s) position s ≡ some (projection position s)
unfolding map_verbatim_position
mapped_through-projection position s o le = elim (Bool-cases (is_verbatim s.kind)) [
  | inl v ↦ ground (arith, o.virtual_le)
  | inr v ↦ ground arith
]

module _ (position : ℕ) (feature : SpanMapFeature) where
  abbrev pub pushed : List SpanMapSegment → List MappedPosition → List MappedPosition
  pushed [] results = results
  pushed (s ∷ segments) results =
      if supports s feature
      then pushed segments (push_new (projection position s) results)
      else pushed segments results

  pushed-append :
      (ss ts : List SpanMapSegment) (results : List MappedPosition)
      → pushed (ss ++ ts) results ≡ pushed ts (pushed ss results)
  pushed-append [] ts results = refl
  pushed-append (s ∷ ss) ts results = elim (Bool-cases (supports s feature)) [
    | inl h ↦ rw h (pushed-append ss ts (push_new (projection position s) results))
    | inr h ↦ rw h (pushed-append ss ts results)
  ]

  pub elem-pushed :
      (k : MappedPosition) (segments : List SpanMapSegment) (results : List MappedPosition)
      → elem k (pushed segments results) ≡ (
          if elem k results
          then true
          else any (λ s. supports s feature && (projection position s == k)) segments)
  elem-pushed k [] results = ground arith
  elem-pushed k (s ∷ segments) results = elim (Bool-cases (supports s feature)) [
    | inl h ↦ rw h (
        elem-pushed k segments (push_new (projection position s) results)
        ∙ rw (elem-push_new (projection position s) k results) (ground arith))
    | inr h ↦ rw h (elem-pushed k segments results)
  ]

  pub IsDistinct-pushed :
      (segments : List SpanMapSegment) (results : List MappedPosition)
      → IsDistinct results
      → IsDistinct (pushed segments results)
  IsDistinct-pushed [] results d = d
  IsDistinct-pushed (s ∷ segments) results d = elim (Bool-cases (supports s feature)) [
    | inl h ↦ rw h (
        IsDistinct-pushed segments (push_new (projection position s) results)
          (IsDistinct-push_new (projection position s) results d))
    | inr h ↦ rw h (IsDistinct-pushed segments results d)
  ]

  -- A segment that the position is at or at an end of, and that is not inverted.
  pub record Touches (s : SpanMapSegment) : Type 0 where
    pub ordered : IsOrdered s
    pub starts : s.original_start ≤ position
    pub ends : position ≤ s.original_end

  push_group-pushed :
      (e : Bool) (segments : List SpanMapSegment) (results : List MappedPosition)
      → All Touches segments
      → All (λ s. ends_at position s ≡ e) segments
      → push_group e segments position feature results ≡ some (pushed segments results)
  unfolding push_group
  push_group-pushed e [] results t h = refl
  push_group-pushed e (s ∷ segments) results t h = elim (Bool-cases (supports s feature)) [
    | inl y ↦
        let m = mapped_through-projection position s t.0.ordered t.0.starts in
        rw (y, sym h.0, m, ◌and_then◌)
          (push_group-pushed e segments (push_new (projection position s) results) t.1 h.1)
    | inr n ↦ rw n (push_group-pushed e segments results t.1 h.1)
  ]

  same_prefix-split :
      (s : SpanMapSegment) (segments : List SpanMapSegment)
      → same_prefix s segments ++ drop (length (same_prefix s segments)) segments ≡ segments
  same_prefix-split s [] = refl
  same_prefix-split s (t ∷ segments) = elim (Bool-cases (same_original_range s t)) [
    | inl h ↦ rw h (ap (◌∷◌ t) (same_prefix-split s segments))
    | inr h ↦ rw h refl
  ]

  same_prefix-ends :
      (s : SpanMapSegment) (segments : List SpanMapSegment)
      → All (λ t. ends_at position t ≡ ends_at position s) (same_prefix s segments)
  same_prefix-ends s [] = tt
  same_prefix-ends s (t ∷ segments) = elim (Bool-cases (same_original_range s t)) [
    | inl h ↦ rw h (ground arith, same_prefix-ends s segments)
    | inr h ↦ rw h tt
  ]

  pub group_loop-pushed :
      (fuel : ℕ) (segments : List SpanMapSegment)
      → length segments < fuel
      → All Touches segments
      → (groups : List SegmentGroup) × (group_loop fuel segments position ≡ some groups)
        × ((results : List MappedPosition)
            → push_groups groups position feature results ≡ some (pushed segments results))
  unfolding group_loop push_groups
  group_loop-pushed zero segments lt t = absurd (omega arith)
  group_loop-pushed (suc fuel) [] lt t = ([], refl, λ results. refl)
  group_loop-pushed (suc fuel) (s ∷ segments) lt t =
      let same = same_prefix s segments in
      let rest = drop (length same) segments in
      let whole : same ++ rest ≡ segments = same_prefix-split s segments in
      let touch = All-split Touches same rest (subst (All Touches) (sym whole) t.1) in
      let (groups, e, p) =
        group_loop-pushed fuel rest (omega (arith, length-drop (length same) segments)) touch.1 in
      let within : leb position s.original_end ≡ true = ground (arith, t.0.ends) in
      (
        (record { segments = s ∷ same; at_end = ends_at position s }) ∷ groups,
        rw (e, ◌and_then◌, within) refl,
        λ results.
            rw
              (
                push_group-pushed (ends_at position s) (s ∷ same) results (t.0, touch.0)
                    (refl, same_prefix-ends s segments),
                ◌and_then◌,
              )
              (p (pushed (s ∷ same) results)
                ∙ ap some (
                    sym (pushed-append (s ∷ same) rest results)
                    ∙ ap (λ r. pushed (s ∷ r) results) whole)),
      )
