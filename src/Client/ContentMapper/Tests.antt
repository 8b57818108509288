-- ===== src/Client/ContentMapper/Tests.antt =====
-- A file with a script that is copied and a template that is an atom, mapped both ways.
use corsa_bind.Common.{
  ℕ, ◌≡◌, refl, true, false, some, List, [], ◌∷◌, All, IsSorted, IsDistinct, elem, any, arith,
  ◌and_then◌, sort_by, filter, string_eq,
}
use corsa_bind.Client.ContentMapper.Ranges.{new_range, SpanMapFidelity, MappedPosition, MappedRange}
use corsa_bind.Client.ContentMapper.Features.{
  hover_feature, rename_feature, all_features, intersects,
}
use corsa_bind.Client.ContentMapper.Segments.{
  SpanMapKind, SpanMapSegment, new_segment, verbatim_segment, with_features, IsOrdered,
  map_verbatim_position,
}
use corsa_bind.Client.ContentMapper.Definition.{is_supported_virtual_extension}
use corsa_bind.Client.ContentMapper.Virtual.{
  segment_index_at, map_point, map_boundary, map_range, covered_loop,
  virtual_range_supports_feature, virtual_to_original_span_for_feature,
}
use corsa_bind.Client.ContentMapper.Virtual.Located.{IsDisjoint}
use corsa_bind.Client.ContentMapper.Virtual.Spans.{serves, span_for_feature-serves}
use corsa_bind.Client.ContentMapper.Original.{
  by_original, some_if_any, original_index, segments_at_original_position,
}
use corsa_bind.Client.ContentMapper.Original.Position.{
  stands_at, segments_at_original_position-filter,
}
use corsa_bind.Client.ContentMapper.Projections.{
  mapped_position_eq, by_position, original_to_virtual_positions,
}
use corsa_bind.Client.ContentMapper.Projections.Positions.{
  projects, original_to_virtual_positions-any,
}
use corsa_bind.Client.ContentMapper.Images.{original_to_virtual_spans}
use corsa_bind.Client.ContentMapper.Images.Total.{Forward, original_to_virtual_spans-Forward}
use corsa_bind.Client.ContentMapper.RoundTrip.{original_to_virtual_positions-map_point}

abbrev script : SpanMapSegment
script = verbatim_segment 10 22 8 20

abbrev template : SpanMapSegment
template = with_features (new_segment 22 30 25 31 SpanMapKind.atom) hover_feature

abbrev file : List SpanMapSegment
file = script ∷ template ∷ []

abbrev script-IsOrdered : IsOrdered script
script-IsOrdered = record { virtual_le = omega arith; original_le = omega arith }

abbrev file-IsOrdered : All IsOrdered file
file-IsOrdered =
    (script-IsOrdered, (record { virtual_le = omega arith; original_le = omega arith }, tt))

abbrev file-IsDisjoint : IsDisjoint file
file-IsDisjoint = (omega arith, (omega arith, tt), (omega arith, tt, tt))

abbrev exactly : ℕ → MappedPosition
exactly n = record { position = n; fidelity = SpanMapFidelity.exact }

point_in_script : map_point file 13 ≡ some (exactly 11)
unfolding map_point segment_index_at map_verbatim_position
point_in_script = refl

abbrev whole_range : MappedRange
whole_range = record { range = new_range 10 31; fidelity = SpanMapFidelity.approximate }

rename_served : intersects all_features rename_feature ≡ true
unfolding intersects
rename_served = refl

hover_mapped :
    virtual_to_original_span_for_feature file (record { pos = 12; end = 30 }) hover_feature
    ≡ some whole_range
unfolding virtual_to_original_span_for_feature map_range segment_index_at map_verbatim_position
    virtual_range_supports_feature covered_loop intersects new_range map_boundary
hover_mapped = refl

vue_refused : is_supported_virtual_extension ".vue" ≡ false
vue_refused = refl

original_to_virtual_positions-map_point_example :
    (q : ℕ) × (results : List MappedPosition) × (map_point file 13 ≡ some (exactly q))
    × (original_to_virtual_positions file q rename_feature ≡ some results)
    × (elem (exactly 13) results ≡ true)
original_to_virtual_positions-map_point_example =
    original_to_virtual_positions-map_point file 13 0 script rename_feature file-IsDisjoint
      file-IsOrdered refl (omega arith) (omega arith) refl refl rename_served

segments_at_original_position-filter_example :
    (original_index file and_then λ index. segments_at_original_position index 11)
    ≡ some (some_if_any (filter (stands_at 11) (sort_by by_original file)))
segments_at_original_position-filter_example = segments_at_original_position-filter file 11

original_to_virtual_positions-any_example :
    (results : List MappedPosition) × (original_to_virtual_positions file 11 hover_feature
      ≡ some results)
    × IsSorted by_position results
    × IsDistinct results
    × ((m : MappedPosition) → elem m results ≡ any (projects 11 hover_feature m) file)
original_to_virtual_positions-any_example =
    original_to_virtual_positions-any file 11 hover_feature file-IsOrdered

span_for_feature-serves_example : any (serves hover_feature 23) file ≡ true
span_for_feature-serves_example =
    span_for_feature-serves file (record { pos = 12; end = 30 }) hover_feature whole_range
      hover_mapped refl 23 (omega arith) (omega arith)

original_to_virtual_spans-Forward_example :
    Forward (original_to_virtual_spans file (new_range 9 27) hover_feature)
original_to_virtual_spans-Forward_example =
    original_to_virtual_spans-Forward file file-IsOrdered (new_range 9 27) hover_feature
