-- ===== src/Client/ContentMapper/Projections.antt =====
-- src/core/corsa_client/src/api/content_mapper.rs: the maps from original text to virtual text, which
-- give several projections. `none` is a panic, or fuel that ran out.
pub mod Groups
pub mod Positions
use Prim.Native.Nat.{max}
use corsa_bind.Common.{
  ℕ, zero, suc, ◌+◌, ◌-◌, ◌==◌, Eq, nat_eq, nat_beq_iff, ◌↔◌, ◌≡◌, Bool, true, false, not, ◌&&◌,
  Option, some, none, List, [], ◌∷◌, ◌++◌, length, drop, leb, if◌then◌else◌, ◌and_then◌, sort_by,
  push_new, arith,
}
use corsa_bind.Client.ContentMapper.Ranges.{
  TextRange, new_range, empty_range, SpanMapFidelity, MappedPosition, MappedRange,
}
use corsa_bind.Client.ContentMapper.Features.{SpanMapFeature}
use corsa_bind.Client.ContentMapper.Segments.{
  SpanMapSegment, virtual_range, supports, same_original_range, is_verbatim, map_verbatim_position,
}
use corsa_bind.Client.ContentMapper.Codes.{u8_from_fidelity, u8_from_fidelity-injective}
use corsa_bind.Client.ContentMapper.Original.{
  OriginalIndex, original_index, first_original_segment_after, segments_ending_at_or_after,
  segments_at_original_position,
}

pub record SegmentGroup : Type 0 where
  pub segments : List SpanMapSegment
  pub at_end : Bool

-- The segments at the front that have the same original range as `s`.
abbrev pub same_prefix : SpanMapSegment → List SpanMapSegment → List SpanMapSegment
same_prefix s [] = []
same_prefix s (t ∷ segments) = if same_original_range s t then t ∷ same_prefix s segments else []

abbrev pub ends_at : ℕ → SpanMapSegment → Bool
ends_at position s = (position == s.original_end) && not (position == s.original_start)

-- The loop of `segment_groups_at_original_position`; each group takes one unit of fuel.
unfoldable pub group_loop : ℕ → List SpanMapSegment → ℕ → Option (List SegmentGroup)
group_loop zero segments position = none
group_loop (suc fuel) [] position = some []
group_loop (suc fuel) (s ∷ segments) position =
    let same = same_prefix s segments in
    group_loop fuel (drop (length same) segments) position and_then λ groups. some (
      if leb position s.original_end
      then (record { segments = s ∷ same; at_end = ends_at position s }) ∷ groups
      else groups)

unfoldable pub segment_groups_at_original_position : OriginalIndex → ℕ → Option (List SegmentGroup)
segment_groups_at_original_position index position =
    let limit = first_original_segment_after index.segments position in
    segments_ending_at_or_after index limit position true and_then λ segments.
    group_loop (suc (length segments)) segments position

-- `PartialEq`, derived.
abbrev pub mapped_position_beq : MappedPosition → MappedPosition → Bool
mapped_position_beq m n =
    (m.position == n.position) && (u8_from_fidelity m.fidelity == u8_from_fidelity n.fidelity)

pub mapped_position_beq_iff : (m n : MappedPosition) → (mapped_position_beq m n ≡ true) ↔ (m ≡ n)
mapped_position_beq_iff m n =
    ground
      (arith, nat_beq_iff m.position n.position, u8_from_fidelity-injective m.fidelity n.fidelity)

instance abbrev pub mapped_position_eq : Eq MappedPosition
mapped_position_eq = record { beq_iff = mapped_position_beq_iff; beq = mapped_position_beq }

abbrev pub mapped_through : Bool → ℕ → SpanMapSegment → Option MappedPosition
mapped_through at_end position s =
    if is_verbatim s.kind
    then (map_verbatim_position s position true and_then λ mapped.
        some (record { position = mapped; fidelity = SpanMapFidelity.exact }))
    else some (record {
      position = if at_end then s.virtual_end else s.virtual_start;
      fidelity = SpanMapFidelity.atom;
    })

-- The inner loop, over the segments of a group, and the outer one, over the groups.
unfoldable pub push_group :
    Bool
    → List SpanMapSegment
    → ℕ
    → SpanMapFeature
    → List MappedPosition
    → Option (List MappedPosition)
push_group at_end [] position feature results = some results
push_group at_end (s ∷ segments) position feature results =
    if supports s feature
    then (mapped_through at_end position s and_then λ mapped.
        push_group at_end segments position feature (push_new mapped results))
    else push_group at_end segments position feature results

unfoldable pub push_groups :
    List SegmentGroup → ℕ → SpanMapFeature → List MappedPosition → Option (List MappedPosition)
push_groups [] position feature results = some results
push_groups (g ∷ groups) position feature results =
    push_group g.at_end g.segments position feature results
    and_then push_groups groups position feature

abbrev pub by_position : MappedPosition → MappedPosition → Bool
by_position m n = leb m.position n.position

unfoldable pub original_to_virtual_positions :
    List SpanMapSegment → ℕ → SpanMapFeature → Option (List MappedPosition)
original_to_virtual_positions segments position feature = original_index segments and_then λ index.
    segment_groups_at_original_position index position and_then λ groups.
    push_groups groups position feature [] and_then λ results. some (sort_by by_position results)
