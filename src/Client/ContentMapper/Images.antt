-- ===== src/Client/ContentMapper/Images.antt =====
-- src/core/corsa_client/src/api/content_mapper.rs: `original_to_virtual_spans`. `none` is a panic, or
-- fuel that ran out.
pub mod Pairs
pub mod Total
use Prim.Native.Nat.{max}
use corsa_bind.Common.{
  ℕ, ◌-◌, ◌==◌, nat_eq, Bool, true, false, Option, some, none, List, [], ◌∷◌, map, leb,
  if◌then◌else◌, ◌and_then◌, sort_by, filter,
}
use corsa_bind.Client.ContentMapper.Ranges.{
  TextRange, new_range, empty_range, SpanMapFidelity, MappedPosition, MappedRange,
}
use corsa_bind.Client.ContentMapper.Features.{SpanMapFeature}
use corsa_bind.Client.ContentMapper.Segments.{
  SpanMapSegment, virtual_range, supports, is_verbatim, map_verbatim_position,
}
use corsa_bind.Client.ContentMapper.Original.{
  OriginalIndex, original_index, segments_at_original_position,
}
use corsa_bind.Client.ContentMapper.Projections.{original_to_virtual_positions}

-- `iter().map(f).collect()`, where `f` may panic.
abbrev pub map_each :
    {B : Type 0} → (SpanMapSegment → Option B) → List SpanMapSegment → Option (List B)
map_each f [] = some []
map_each f (s ∷ segments) = f s and_then λ y. map_each f segments and_then λ ys. some (y ∷ ys)

abbrev pub boundary_through : ℕ → Bool → SpanMapSegment → Option ℕ
boundary_through position at_end s =
    if is_verbatim s.kind
    then map_verbatim_position s position true
    else some (if at_end then s.virtual_end else s.virtual_start)

unfoldable pub original_projections :
    List SpanMapSegment → ℕ → SpanMapFeature → Bool → Option (List ℕ)
original_projections segments position feature at_end =
    map_each (boundary_through position at_end) (filter (λ s. supports s feature) segments)

abbrev pub span_through : ℕ → ℕ → SpanMapSegment → Option MappedRange
span_through start end s =
    if is_verbatim s.kind
    then (map_verbatim_position s start true and_then λ mapped_start.
        map_verbatim_position s end true and_then λ mapped_end. some (record {
          range = new_range mapped_start (max mapped_start mapped_end);
          fidelity = SpanMapFidelity.exact;
        }))
    else some (record { range = virtual_range s; fidelity = SpanMapFidelity.atom })

unfoldable pub original_to_virtual_spans_in_segments :
    List SpanMapSegment → ℕ → ℕ → SpanMapFeature → Option (List MappedRange)
original_to_virtual_spans_in_segments segments start end feature =
    map_each (span_through start end) (filter (λ s. supports s feature) segments)

-- `ends.iter().find(|end| end >= virtual_start)`
abbrev pub find_end : ℕ → List ℕ → Option ℕ
find_end virtual_start [] = none
find_end virtual_start (end ∷ ends) =
    if leb virtual_start end then some end else find_end virtual_start ends

abbrev pub is_shadowed : ℕ → List ℕ → Bool
is_shadowed virtual_end [] = false
is_shadowed virtual_end (next ∷ starts) = leb next virtual_end

-- The candidate ranges from each start to the first end behind it, without those that a later start
-- shadows.
unfoldable pub pair_spans : List ℕ → List ℕ → List MappedRange
pair_spans [] ends = []
pair_spans (virtual_start ∷ starts) ends =
    let rest = pair_spans starts ends in
    elim (find_end virtual_start ends) [
      | none ↦ rest
      | some virtual_end ↦
          if is_shadowed virtual_end starts
          then rest
          else (record {
            range = new_range virtual_start virtual_end;
            fidelity = SpanMapFidelity.approximate;
          })
            ∷ rest
    ]

-- No pairs are made of no starts, or of no ends.
abbrev pub pairs_of : List ℕ → List ℕ → List MappedRange
pairs_of [] ends = []
pairs_of starts [] = []
pairs_of starts ends = pair_spans starts ends

abbrev pub approximate_spans :
    List SpanMapSegment → List SpanMapSegment → ℕ → ℕ → SpanMapFeature → Option (List MappedRange)
approximate_spans start_segments end_segments start end feature =
    original_projections start_segments start feature false and_then λ starts.
    original_projections end_segments end feature true and_then λ ends.
    some (pairs_of (sort_by leb starts) (sort_by leb ends))

abbrev pub by_pos : MappedRange → MappedRange → Bool
by_pos m n = leb m.range.pos n.range.pos

abbrev pub spans_found :
    List MappedRange
    → List SpanMapSegment
    → List SpanMapSegment
    → ℕ
    → ℕ
    → SpanMapFeature
    → Option (List MappedRange)
spans_found [] start_segments end_segments start end feature =
    approximate_spans start_segments end_segments start end feature
spans_found results start_segments end_segments start end feature = some (sort_by by_pos results)

-- The spans through the segments that contain the whole range, if any of them serves the feature.
abbrev pub spans_between :
    Option (List SpanMapSegment)
    → Option (List SpanMapSegment)
    → ℕ
    → ℕ
    → SpanMapFeature
    → Option (List MappedRange)
spans_between (some start_segments) (some end_segments) start end feature =
    original_to_virtual_spans_in_segments (filter (λ s. leb end s.original_end) start_segments)
      start end feature
    and_then λ results. spans_found results start_segments end_segments start end feature
spans_between _ _ start end feature = some []

abbrev pub empty_span : MappedPosition → MappedRange
empty_span mapped = record { range = empty_range mapped.position; fidelity = mapped.fidelity }

unfoldable pub original_to_virtual_spans :
    List SpanMapSegment → TextRange → SpanMapFeature → Option (List MappedRange)
original_to_virtual_spans segments range feature =
    let start = range.pos in
    let end = max range.end start in
    if start == end
    then (original_to_virtual_positions segments start feature and_then λ positions.
        some (map empty_span positions))
    else (original_index segments and_then λ index.
        segments_at_original_position index start and_then λ start_segments.
        segments_at_original_position index (end - 1) and_then λ end_segments.
        spans_between start_segments end_segments start end feature)
