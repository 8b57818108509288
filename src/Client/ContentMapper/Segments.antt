-- ===== src/Client/ContentMapper/Segments.antt =====
-- src/core/corsa_client/src/api/content_mapper.rs: segments, and the map of a position
-- through one segment.
use corsa_bind.Common.{
  ℕ, ◌+◌, ◌-◌, ◌≤◌, ◌==◌, nat_eq, Bool, true, false, ◌&&◌, Option, some, none, string_eq, ltb,
  if◌then◌else◌,
}
use corsa_bind.Client.ContentMapper.Features.{SpanMapFeature, all_features, intersects}
use corsa_bind.Client.ContentMapper.Ranges.{TextRange, new_range}

pub data SpanMapKind : Type 0 where
  verbatim atom alias : SpanMapKind

pub record SpanMapSegment : Type 0 where
  pub virtual_start : ℕ
  pub virtual_end : ℕ
  pub original_start : ℕ
  pub original_end : ℕ
  pub kind : SpanMapKind
  pub features : SpanMapFeature

abbrev pub new_segment : ℕ → ℕ → ℕ → ℕ → SpanMapKind → SpanMapSegment
new_segment virtual_start virtual_end original_start original_end kind = record {
  virtual_start = virtual_start;
  virtual_end = virtual_end;
  original_start = original_start;
  original_end = original_end;
  kind = kind;
  features = all_features;
}

abbrev pub verbatim_segment : ℕ → ℕ → ℕ → ℕ → SpanMapSegment
verbatim_segment virtual_start virtual_end original_start original_end =
    new_segment virtual_start virtual_end original_start original_end SpanMapKind.verbatim

abbrev pub with_features : SpanMapSegment → SpanMapFeature → SpanMapSegment
with_features s features = record {
  virtual_start = s.virtual_start;
  virtual_end = s.virtual_end;
  original_start = s.original_start;
  original_end = s.original_end;
  kind = s.kind;
  features = features;
}

abbrev pub virtual_range : SpanMapSegment → TextRange
virtual_range s = new_range s.virtual_start s.virtual_end

abbrev pub original_range : SpanMapSegment → TextRange
original_range s = new_range s.original_start s.original_end

abbrev pub supports : SpanMapSegment → SpanMapFeature → Bool
supports s feature = intersects s.features feature

abbrev pub same_original_range : SpanMapSegment → SpanMapSegment → Bool
same_original_range s other =
    (s.original_start == other.original_start) && (s.original_end == other.original_end)

abbrev pub is_verbatim : SpanMapKind → Bool
is_verbatim SpanMapKind.verbatim = true
is_verbatim _ = false

-- `clamp` of `target_start + position - source_start` as an i64: it panics, here `none`, if the
-- bounds are inverted. Both sides of each comparison are shifted up by `source_start`.
abbrev pub clamp_shifted : ℕ → ℕ → ℕ → ℕ → Option ℕ
clamp_shifted source_start target_start target_end position =
    if ltb target_end target_start
    then none
    else if ltb (target_start + position) (target_start + source_start)
    then some target_start
    else if ltb (target_end + source_start) (target_start + position)
    then some target_end
    else some (target_start + position - source_start)

unfoldable pub map_verbatim_position : SpanMapSegment → ℕ → Bool → Option ℕ
map_verbatim_position s position reverse =
    if reverse
    then clamp_shifted s.original_start s.virtual_start s.virtual_end position
    else clamp_shifted s.virtual_start s.original_start s.original_end position

-- The ranges of a segment are not inverted.
pub record IsOrdered (s : SpanMapSegment) : Type 0 where
  pub virtual_le : s.virtual_start ≤ s.virtual_end
  pub original_le : s.original_start ≤ s.original_end
