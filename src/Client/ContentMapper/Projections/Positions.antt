-- ===== src/Client/ContentMapper/Projections/Positions.antt =====
-- What `original_to_virtual_positions` of content_mapper.rs gives for an original position.
use corsa_bind.Common.{
  ℕ, suc, ◌==◌, ◌≡◌, refl, ap, ◌∙◌, sym, subst, Bool, true, ◌&&◌, some, List, [], length, arith,
  leb, any, any-filter, any_congr, any-sort_by, filter, filter-take-partition_point, All, All-mono,
  All-filter, All-sort_by, elem, elem-sort_by, IsDistinct, IsDistinct-sort_by, IsSorted, sort_by,
  sort_by-IsSorted, partition_point-le, ◌and_then◌,
}
use corsa_bind.Client.ContentMapper.Ranges.{MappedPosition}
use corsa_bind.Client.ContentMapper.Features.{SpanMapFeature}
use corsa_bind.Client.ContentMapper.Segments.{SpanMapSegment, IsOrdered, supports}
use corsa_bind.Client.ContentMapper.Original.{
  OriginalIndex, by_original, first_original_segment_after, segments_ending_at_or_after,
}
use corsa_bind.Client.ContentMapper.Original.Tree.{IsTree, original_index-IsTree}
use corsa_bind.Client.ContentMapper.Original.Search.{reaches}
use corsa_bind.Client.ContentMapper.Original.Lookup.{segments_ending_at_or_after-filter}
use corsa_bind.Client.ContentMapper.Original.Position.{by_original_total, by_original_trans}
use corsa_bind.Client.ContentMapper.Projections.{
  SegmentGroup, segment_groups_at_original_position, mapped_position_eq, push_groups, by_position,
  original_to_virtual_positions,
}
use corsa_bind.Client.ContentMapper.Projections.Groups.{
  projection, pushed, elem-pushed, IsDistinct-pushed, Touches, group_loop-pushed,
}

-- A position is at a segment or at an end of it.
abbrev pub touches : ℕ → SpanMapSegment → Bool
touches position s = leb s.original_start position && leb position s.original_end

-- A segment gives the projection `m` of a position for a feature.
abbrev pub projects : ℕ → SpanMapFeature → MappedPosition → SpanMapSegment → Bool
projects position feature m s =
    touches position s && (supports s feature && (projection position s == m))

module _ (position : ℕ) (feature : SpanMapFeature) (index : OriginalIndex) (t : IsTree index)
    (sorted : IsSorted by_original index.segments) (ordered : All IsOrdered index.segments) where
  abbrev near : SpanMapSegment → Bool
  near s = leb s.original_start position && reaches position true s

  near-touches : (s : SpanMapSegment) → near s ≡ touches position s
  near-touches s = ground arith

  touching : List SpanMapSegment
  touching = filter near index.segments

  touching-search :
      segments_ending_at_or_after index
        (first_original_segment_after index.segments position)
        position
        true
      ≡ some touching
  unfolding touching
  touching-search =
      segments_ending_at_or_after-filter index t
        (first_original_segment_after index.segments position) position true
        (partition_point-le _ index.segments)
      ∙ ap some (
          filter-take-partition_point by_original (λ s. leb s.original_start position)
            (λ s t h k. ground arith) (reaches position true) index.segments sorted)

  touching-Touches : All (Touches position feature) touching
  unfolding touching
  touching-Touches =
      All-mono _ _
        (λ s h. record { ordered = h.0; starts = ground (arith, h.1); ends = ground (arith, h.1) })
        touching (All-filter IsOrdered near index.segments ordered)

  positions_found :
      (groups : List SegmentGroup) × (segment_groups_at_original_position index position
        ≡ some groups)
      × (push_groups groups position feature [] ≡ some (pushed position feature touching []))
  unfolding segment_groups_at_original_position
  positions_found =
      let (groups, e, p) =
        group_loop-pushed position feature (suc (length touching)) touching (omega arith)
          touching-Touches in
      (groups, rw (touching-search, ◌and_then◌) e, p [])

  elem-pushed-touching :
      (m : MappedPosition)
      → elem m (pushed position feature touching [])
        ≡ any (projects position feature m) index.segments
  unfolding touching
  elem-pushed-touching m =
      elem-pushed position feature m touching []
      ∙ any-filter (λ s. supports s feature && (projection position s == m)) near index.segments
      ∙ any_congr _ _ index.segments (λ s.
        ap (λ b. b && (supports s feature && (projection position s == m))) (near-touches s))

-- For segments whose ranges are not inverted: the projections of an original position for a feature
-- are found without a panic. They are in the order of their virtual positions, each once, and are
-- exactly the projections through the segments that serve the feature and that the position is at
-- or at an end of.
pub original_to_virtual_positions-any :
    (segments : List SpanMapSegment) (position : ℕ) (feature : SpanMapFeature)
    → All IsOrdered segments
    → (results : List MappedPosition) × (original_to_virtual_positions segments position feature
        ≡ some results)
      × IsSorted by_position results
      × IsDistinct results
      × ((m : MappedPosition) → elem m results ≡ any (projects position feature m) segments)
unfolding original_to_virtual_positions
original_to_virtual_positions-any segments position feature ordered =
    let (index, e, is, t) = original_index-IsTree segments in
    let sorted : IsSorted by_original index.segments =
      subst (IsSorted by_original) (sym is)
        (sort_by-IsSorted by_original by_original_total by_original_trans segments) in
    let whole : All IsOrdered index.segments =
      subst (All IsOrdered) (sym is) (All-sort_by by_original IsOrdered segments ordered) in
    let (groups, p, q) = positions_found position feature index t sorted whole in
    let found = pushed position feature (touching position feature index t sorted whole) [] in
    (
      sort_by by_position found,
      rw (e, ◌and_then◌, p, q) refl,
      sort_by-IsSorted by_position (λ m n h. ground arith) (λ m n o h k. ground arith) found,
      IsDistinct-sort_by by_position found (IsDistinct-pushed position feature _ [] tt),
      λ m.
          elem-sort_by by_position m found
          ∙ elem-pushed-touching position feature index t sorted whole m
          ∙ ap (any (projects position feature m)) is
          ∙ any-sort_by by_original (projects position feature m) segments,
    )
