-- ===== src/Client/ContentMapper/RoundTrip.antt =====
-- Positions of content_mapper.rs from virtual text to the original and back.
use Prim.Native.Nat.{min}
use corsa_bind.Common.{
  ℕ, ◌+◌, ◌-◌, ◌≤◌, ◌<◌, eq_self, ◌≡◌, refl, ap, ◌∙◌, true, some, List, get_elem?, arith,
  Bool-cases, inl, inr, any-of_get_elem?, if◌then◌else◌, All, All-get_elem?, elem, ◌and_then◌,
}
use corsa_bind.Client.ContentMapper.Ranges.{SpanMapFidelity, MappedPosition}
use corsa_bind.Client.ContentMapper.Features.{SpanMapFeature}
use corsa_bind.Client.ContentMapper.Segments.{
  SpanMapKind, SpanMapSegment, IsOrdered, supports, is_verbatim, map_verbatim_position,
}
use corsa_bind.Client.ContentMapper.Virtual.{map_point}
use corsa_bind.Client.ContentMapper.Virtual.Located.{IsDisjoint, segment_index_at-inside}
use corsa_bind.Client.ContentMapper.Projections.{mapped_position_eq, original_to_virtual_positions}
use corsa_bind.Client.ContentMapper.Projections.Groups.{projection}
use corsa_bind.Client.ContentMapper.Projections.Positions.{
  projects, original_to_virtual_positions-any,
}

-- Where a virtual position in a segment is in the original text.
abbrev pub source_of : ℕ → SpanMapSegment → MappedPosition
source_of position s =
    if is_verbatim s.kind
    then record {
      position = min (s.original_start + (position - s.virtual_start)) s.original_end;
      fidelity = SpanMapFidelity.exact;
    }
    else record { position = s.original_start; fidelity = SpanMapFidelity.atom }

-- In segments that are disjoint and not inverted: a position in a segment maps to as far from the
-- start of the original range, but not past its end, if the segment is verbatim, and to the start of
-- the original range otherwise.
pub map_point-inside :
    (segments : List SpanMapSegment) (position i : ℕ) (s : SpanMapSegment)
    → IsDisjoint segments
    → All IsOrdered segments
    → get_elem? segments i ≡ some s
    → s.virtual_start ≤ position
    → position < s.virtual_end
    → map_point segments position ≡ some (source_of position s)
unfolding map_point map_verbatim_position
map_point-inside segments position i s d o g le lt =
    let ordered : IsOrdered s = All-get_elem? IsOrdered segments i s o g in
    rw (segment_index_at-inside segments position i s d g le lt, ◌and_then◌, g)
      (elim (Bool-cases (is_verbatim s.kind)) [
        | inl v ↦ rw v (ground (arith, ordered.original_le))
        | inr v ↦ rw v refl
      ])

-- In segments that are disjoint and not inverted: a position in a verbatim segment that keeps its
-- length and serves a feature maps exactly, and among the projections that its original position has
-- for the feature is the position itself, exactly.
pub original_to_virtual_positions-map_point :
    (segments : List SpanMapSegment) (position i : ℕ) (s : SpanMapSegment)
    (feature : SpanMapFeature)
    → IsDisjoint segments
    → All IsOrdered segments
    → get_elem? segments i ≡ some s
    → s.virtual_start ≤ position
    → position < s.virtual_end
    → s.kind ≡ SpanMapKind.verbatim
    → s.virtual_end - s.virtual_start ≡ s.original_end - s.original_start
    → supports s feature ≡ true
    → (q : ℕ) × (results : List MappedPosition) × (map_point segments position
        ≡ some (record { position = q; fidelity = SpanMapFidelity.exact }))
      × (original_to_virtual_positions segments q feature ≡ some results)
      × (elem (record { position = position; fidelity = SpanMapFidelity.exact }) results ≡ true)
original_to_virtual_positions-map_point segments position i s feature d o g le lt v keeps serves =
    let ordered : IsOrdered s = All-get_elem? IsOrdered segments i s o g in
    let q : ℕ = s.original_start + (position - s.virtual_start) in
    let there : q < s.original_end = omega (arith, ordered.original_le) in
    let back : MappedPosition = record { position = position; fidelity = SpanMapFidelity.exact } in
    let (results, e, sorted, distinct, found) =
      original_to_virtual_positions-any segments q feature o in
    let source : source_of position s ≡ record { position = q; fidelity = SpanMapFidelity.exact } =
      rw v (ap (λ n. record { position = n; fidelity = SpanMapFidelity.exact }) (omega arith)) in
    let image : projection q s ≡ back =
      rw v (ap (λ n. record { position = n; fidelity = SpanMapFidelity.exact }) (omega arith)) in
    let hit : projects q feature back s ≡ true = rw (serves, image, eq_self back) (ground arith) in
    (
      q,
      results,
      map_point-inside segments position i s d o g le lt ∙ ap some source,
      e,
      found back ∙ any-of_get_elem? (projects q feature back) segments i s g hit,
    )
