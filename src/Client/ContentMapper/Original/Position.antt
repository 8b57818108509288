-- ===== src/Client/ContentMapper/Original/Position.antt =====
-- `segments_at_original_position` of content_mapper.rs, against a filter of all segments.
use corsa_bind.Common.{
  ℕ, ◌+◌, ◌≤◌, ◌==◌, nat_eq, ◌≡◌, ap, ◌∙◌, sym, Bool, true, false, ◌&&◌, ◌||◌, some, List, [], ◌++◌,
  subst, sort_by, append-nil, take, drop, arith, leb, ltb, filter, filter_all, filter_none,
  filter_congr, filter-append, All, All-mono, All-get_elem?, All-of_get_elem?, get_elem?-take-some,
  get_elem?-drop, take-append-drop, take-take, partition_point-le, partition_point_mono,
  All-take-partition_point, All-drop-partition_point, IsSorted, sort_by-IsSorted, slice, ◌and_then◌,
}
use corsa_bind.Client.ContentMapper.Segments.{SpanMapSegment}
use corsa_bind.Client.ContentMapper.Original.{
  by_original, first_original_segment_at_or_after, first_original_segment_after, some_if_any,
  segments_at_original_position, original_index,
}
use corsa_bind.Client.ContentMapper.Original.Tree.{original_index-IsTree}
use corsa_bind.Client.ContentMapper.Original.Search.{reaches}
use corsa_bind.Client.ContentMapper.Original.Lookup.{segments_ending_at_or_after-filter}

pub by_original_total : (s t : SpanMapSegment) → by_original s t ≡ false → by_original t s ≡ true
by_original_total s t h = ground arith

pub by_original_trans :
    (s t u : SpanMapSegment)
    → by_original s t ≡ true
    → by_original t u ≡ true
    → by_original s u ≡ true
by_original_trans s t u h k = ground arith

-- A segment stands at a position of the original text: its end is not in it, but its start is, also
-- if it is empty.
abbrev pub stands_at : ℕ → SpanMapSegment → Bool
stands_at position s =
    leb s.original_start position && (ltb position s.original_end || (s.original_start == position))

module _ (segments : List SpanMapSegment) (sorted : IsSorted by_original segments)
    (position : ℕ) where
  abbrev start : ℕ
  start = first_original_segment_at_or_after segments position

  abbrev end : ℕ
  end = first_original_segment_after segments position

  start-le : start ≤ end
  start-le =
      partition_point_mono (λ s. ltb s.original_start position) (λ s. leb s.original_start position)
        segments (λ s h. ground arith)

  from_start : All (λ s. ltb s.original_start position ≡ false) (drop start segments)
  from_start =
      All-drop-partition_point by_original (λ s. ltb s.original_start position)
        (λ s t h k. ground arith) segments sorted

  from_end : All (λ s. leb s.original_start position ≡ false) (drop end segments)
  from_end =
      All-drop-partition_point by_original (λ s. leb s.original_start position)
        (λ s t h k. ground arith) segments sorted

  before_start :
      filter (stands_at position) (take start segments)
      ≡ filter (reaches position false) (take start segments)
  before_start = filter_congr _ _ (take start segments) (
      All-mono _ _ (λ s h. ground arith) (take start segments)
        (All-take-partition_point (λ s. ltb s.original_start position) segments))

  between : filter (stands_at position) (slice segments start end) ≡ slice segments start end
  between = filter_all _ (slice segments start end) (
      All-of_get_elem? _ (slice segments start end) λ i s h.
        let q = sym (get_elem?-drop start i (take end segments)) ∙ h in
        let (below, r) = get_elem?-take-some end (start + i) segments s q in
        let low =
          All-get_elem? _ (drop start segments) i s from_start
            (get_elem?-drop start i segments ∙ r) in
        let high =
          All-get_elem? _ (take end segments) (start + i) s
            (All-take-partition_point (λ s. leb s.original_start position) segments) q in
        ground arith)

  after_end : filter (stands_at position) (drop end segments) ≡ []
  after_end =
      filter_none _ (drop end segments)
        (All-mono _ _ (λ s h. ground arith) (drop end segments) from_end)

  stands_at-slices :
      filter (stands_at position) segments
      ≡ filter (reaches position false) (take start segments) ++ slice segments start end
  stands_at-slices =
      let keep = filter (stands_at position) in
      let halves = filter-append (stands_at position) (take end segments) (drop end segments) in
      let firsts =
        filter-append (stands_at position) (take start (take end segments))
          (slice segments start end) in
      ap keep (sym (take-append-drop end segments))
      ∙ halves
      ∙ ap (λ r. keep (take end segments) ++ r) after_end
      ∙ append-nil _
      ∙ ap keep (sym (take-append-drop start (take end segments)))
      ∙ firsts
      ∙ ap (λ r. keep r ++ keep (slice segments start end)) (take-take start end segments start-le)
      ∙ ap (λ r. r ++ keep (slice segments start end)) before_start
      ∙ ap (λ r. filter (reaches position false) (take start segments) ++ r) between

-- For any segments: the index is built without a panic, and the search in it finds the segments that
-- stand at a position, in the order of the original text, or none if there are none.
pub segments_at_original_position-filter :
    (segments : List SpanMapSegment) (position : ℕ)
    → (original_index segments and_then λ index. segments_at_original_position index position)
      ≡ some (some_if_any (filter (stands_at position) (sort_by by_original segments)))
unfolding segments_at_original_position
segments_at_original_position-filter segments position =
    let (index, e, is, t) = original_index-IsTree segments in
    let sorted : IsSorted by_original index.segments =
      subst (IsSorted by_original) (sym is)
        (sort_by-IsSorted by_original by_original_total by_original_trans segments) in
    let low = start index.segments sorted position in
    let search =
      segments_ending_at_or_after-filter index t low position false
        (partition_point-le _ index.segments) in
    rw (e, ◌and_then◌, search, ◌and_then◌)
      (ap (λ r. some (some_if_any r)) (sym (stands_at-slices index.segments sorted position))
        ∙ ap (λ r. some (some_if_any (filter (stands_at position) r))) is)
