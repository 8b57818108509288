-- ===== src/Client/ContentMapper/Virtual.antt =====
-- src/core/corsa_client/src/api/content_mapper.rs: `SpanMap`, and the maps from virtual text to the
-- original. `none` is a panic: an index out of range, or a clamp between inverted bounds.
pub mod Located
pub mod Total
pub mod Spans
use Prim.Native.Nat.{max}
use corsa_bind.Common.{
  ℕ, zero, suc, ◌-◌, ◌==◌, nat_eq, Bool, true, false, not, ◌&&◌, ◌||◌, Option, some, none, List, [],
  ◌∷◌, length, drop, get_elem?, ltb, leb, if◌then◌else◌, ◌and_then◌, sort_by, partition_point,
}
use corsa_bind.Client.ContentMapper.Ranges.{
  TextRange, new_range, empty_range, SpanMapFidelity, MappedPosition, MappedRange,
}
use corsa_bind.Client.ContentMapper.Features.{SpanMapFeature}
use corsa_bind.Client.ContentMapper.Segments.{
  SpanMapSegment, original_range, supports, is_verbatim, map_verbatim_position,
}

-- `SpanMap`: its segments; the index of original positions is a function of them.
abbrev pub SpanMap : Type 0
SpanMap = List SpanMapSegment

abbrev pub by_virtual_start : SpanMapSegment → SpanMapSegment → Bool
by_virtual_start s t = leb s.virtual_start t.virtual_start

unfoldable pub new_span_map : List SpanMapSegment → SpanMap
new_span_map segments = sort_by by_virtual_start segments

abbrev pub starts_at : Option SpanMapSegment → ℕ → Bool
starts_at none position = false
starts_at (some s) position = s.virtual_start == position

-- The index of the segment at a position, or of the one before it, and whether the position is in it.
unfoldable pub segment_index_at : List SpanMapSegment → ℕ → Option (Option ℕ × Bool)
segment_index_at segments position =
    let low = partition_point (λ s. ltb s.virtual_start position) segments in
    if starts_at (get_elem? segments low) position then some (some low, true) else elim low [
      | zero ↦ some (none, false)
      | suc previous ↦ get_elem? segments previous and_then λ s. some (
        some previous,
        ltb position s.virtual_end
            || ((previous == length segments - 1) && (position == s.virtual_end)),
      )
    ]

unfoldable pub insertion_point : List SpanMapSegment → Option ℕ → Option ℕ
insertion_point segments none = some 0
insertion_point segments (some previous) =
    get_elem? segments previous and_then λ s. some s.original_end

unfoldable pub map_boundary : List SpanMapSegment → ℕ → Option ℕ → Bool → Bool → Option ℕ
unfolding insertion_point map_verbatim_position
map_boundary segments position (some index) true high = get_elem? segments index and_then λ s.
    if is_verbatim s.kind
    then map_verbatim_position s position false
    else some (if high then s.original_end else s.original_start)
map_boundary segments position index inside high = insertion_point segments index

-- A position in no segment has no counterpart: the insertion point stands for it.
abbrev pub point_in_gap : List SpanMapSegment → Option ℕ → Option MappedPosition
point_in_gap segments index = insertion_point segments index and_then λ position.
    some (record { position = position; fidelity = SpanMapFidelity.none })

abbrev pub map_point_at : List SpanMapSegment → ℕ → Option ℕ × Bool → Option MappedPosition
map_point_at segments position (some index, true) = get_elem? segments index and_then λ s.
    if is_verbatim s.kind
    then (map_verbatim_position s position false and_then λ mapped.
        some (record { position = mapped; fidelity = SpanMapFidelity.exact }))
    else some (record { position = s.original_start; fidelity = SpanMapFidelity.atom })
map_point_at segments position (index, inside) = point_in_gap segments index

unfoldable pub map_point : SpanMap → ℕ → Option MappedPosition
map_point segments position =
    segment_index_at segments position and_then map_point_at segments position

-- A range in one segment, or in one gap.
abbrev pub map_within : List SpanMapSegment → ℕ → ℕ → Option ℕ × Bool → Option MappedRange
map_within segments start end (some index, true) = get_elem? segments index and_then λ s.
    if is_verbatim s.kind
    then (map_verbatim_position s start false and_then λ mapped_start.
        map_verbatim_position s end false and_then λ mapped_end. some (record {
          range = new_range mapped_start (max mapped_start mapped_end);
          fidelity = SpanMapFidelity.exact;
        }))
    else some (record { range = original_range s; fidelity = SpanMapFidelity.atom })
map_within segments start end (index, inside) = insertion_point segments index and_then λ position.
    some (record { range = empty_range position; fidelity = SpanMapFidelity.none })

-- A range over several: its ends are mapped apart.
abbrev pub map_across :
    List SpanMapSegment → ℕ → ℕ → Option ℕ × Bool → Option ℕ × Bool → Option MappedRange
map_across segments start end (start_index, start_inside) (end_index, end_inside) =
    map_boundary segments start start_index start_inside false and_then λ mapped_start.
    map_boundary segments end end_index end_inside true and_then λ mapped_end. some (record {
      range = new_range mapped_start (max mapped_start mapped_end);
      fidelity = SpanMapFidelity.approximate;
    })

abbrev pub is_same_place : Option ℕ × Bool → Option ℕ × Bool → Bool
is_same_place (some i, a) (some j, b) = (i == j) && (if a then b else not b)
is_same_place (none, a) (none, b) = if a then b else not b
is_same_place _ _ = false

unfoldable pub map_range : SpanMap → TextRange → Option MappedRange
map_range segments range =
    let start = range.pos in
    let end = max range.end start in
    if start == end
    then (map_point segments start and_then λ mapped.
        some (record { range = empty_range mapped.position; fidelity = mapped.fidelity }))
    else segment_index_at segments start and_then λ first.
        segment_index_at segments (end - 1) and_then λ last.
        if is_same_place first last
        then map_within segments start end first
        else map_across segments start end first last

abbrev pub place_supports : List SpanMapSegment → SpanMapFeature → Option ℕ × Bool → Option Bool
place_supports segments feature (some index, true) =
    get_elem? segments index and_then λ s. some (supports s feature)
place_supports segments feature _ = some false

-- The loop over the segments from the first on, the text before `covered_through` being covered.
unfoldable pub covered_loop : List SpanMapSegment → SpanMapFeature → ℕ → ℕ → Bool
covered_loop [] feature covered_through end = leb end covered_through
covered_loop (s ∷ segments) feature covered_through end =
    if ltb covered_through end
    then (if ltb covered_through s.virtual_start
          || (leb s.virtual_end covered_through || not (supports s feature))
        then false
        else covered_loop segments feature s.virtual_end end)
    else leb end covered_through

abbrev pub range_supports :
    List SpanMapSegment → SpanMapFeature → ℕ → ℕ → Option ℕ × Bool → Option Bool
range_supports segments feature start end (some index, true) =
    some (covered_loop (drop index segments) feature start end)
range_supports segments feature start end place = some false

unfoldable pub virtual_range_supports_feature : SpanMap → TextRange → SpanMapFeature → Option Bool
virtual_range_supports_feature segments range feature =
    let start = range.pos in
    let end = max range.end start in
    segment_index_at segments start and_then λ place.
    if start == end
    then place_supports segments feature place
    else range_supports segments feature start end place

unfoldable pub virtual_to_original_position_for_feature :
    SpanMap → ℕ → SpanMapFeature → Option MappedPosition
virtual_to_original_position_for_feature segments position feature =
    map_point segments position and_then λ mapped.
    segment_index_at segments position and_then λ place.
    place_supports segments feature place and_then λ supported. some (
      if supported
      then mapped
      else record { position = mapped.position; fidelity = SpanMapFidelity.none })

abbrev pub none_unless : Bool → MappedRange → MappedRange
none_unless supported mapped =
    if supported then mapped else record { range = mapped.range; fidelity = SpanMapFidelity.none }

unfoldable pub virtual_to_original_span_for_feature :
    SpanMap → TextRange → SpanMapFeature → Option MappedRange
virtual_to_original_span_for_feature segments range feature =
    map_range segments range and_then λ mapped.
    virtual_range_supports_feature segments range feature and_then λ supported.
    some (none_unless supported mapped)
