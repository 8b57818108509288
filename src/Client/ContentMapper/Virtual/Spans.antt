-- ===== src/Client/ContentMapper/Virtual/Spans.antt =====
-- Ranges of content_mapper.rs from virtual text to the original: no panic, and what a range that is
-- mapped for a feature is covered by.
use Prim.Native.Nat.{max}
use corsa_bind.Common.{
  ℕ, ◌-◌, ◌≤◌, ◌<◌, ◌==◌, nat_eq, ◌≡◌, refl, ap, ◌∙◌, sym, Bool, true, false, ◌&&◌, Option, some,
  none, List, [], ◌∷◌, drop, arith, Bool-cases, inl, inr, ltb, leb, if◌then◌else◌, any, any-drop,
  All, ◌and_then◌, and_then-eq-some,
}
use mathlib.Core.Option.{some-injective}
use corsa_bind.Client.ContentMapper.Ranges.{
  TextRange, new_range, empty_range, SpanMapFidelity, MappedRange, is_none,
}
use corsa_bind.Client.ContentMapper.Features.{SpanMapFeature}
use corsa_bind.Client.ContentMapper.Segments.{
  SpanMapSegment, IsOrdered, original_range, supports, is_verbatim,
}
use corsa_bind.Client.ContentMapper.Virtual.{
  segment_index_at, insertion_point, map_within, map_across, is_same_place, map_range,
  place_supports, covered_loop, range_supports, none_unless, virtual_range_supports_feature,
  virtual_to_original_span_for_feature,
}
use corsa_bind.Client.ContentMapper.Virtual.Total.{
  IsThere, segment_index_at-IsThere, insertion_point-IsSome, map_verbatim_position-IsSome,
  map_boundary-IsSome, map_point-IsSome,
}

-- A range that is mapped, and is not inverted.
abbrev pub Maps : Option MappedRange → Type 0
Maps o = (m : MappedRange) × (o ≡ some m) × (m.range.pos ≤ m.range.end)

pub new_range-le : (pos end : ℕ) → (new_range pos end).pos ≤ (new_range pos end).end
unfolding new_range
new_range-le pos end = ground arith

module _ (segments : List SpanMapSegment) (ordered : All IsOrdered segments) where
  gap-Maps :
      (start end : ℕ) (index : Option ℕ) (inside : Bool)
      → IsThere segments (index, inside)
      → Maps (
          insertion_point segments index and_then λ position.
          some (record { range = empty_range position; fidelity = SpanMapFidelity.none }))
  gap-Maps start end index inside there =
      let (p, e) = insertion_point-IsSome segments index inside there in
      (record { range = empty_range p; fidelity = SpanMapFidelity.none }, rw e refl, omega arith)

  map_within-Maps :
      (start end : ℕ) (place : Option ℕ × Bool)
      → IsThere segments place
      → Maps (map_within segments start end place)
  map_within-Maps start end (none, inside) there = gap-Maps start end none inside there
  map_within-Maps start end (some i, false) there = gap-Maps start end (some i) false there
  map_within-Maps start end (some i, true) (s, g) = elim (Bool-cases (is_verbatim s.kind)) [
    | inl v ↦
        let (p, e) = map_verbatim_position-IsSome segments ordered i start s g in
        let (q, f) = map_verbatim_position-IsSome segments ordered i end s g in
        (
          record { range = new_range p (max p q); fidelity = SpanMapFidelity.exact },
          rw (g, ◌and_then◌, v, e, f) refl,
          new_range-le p (max p q),
        )
    | inr v ↦ (
      record { range = original_range s; fidelity = SpanMapFidelity.atom },
      rw (g, ◌and_then◌, v) refl,
      new_range-le s.original_start s.original_end,
    )
  ]

  map_across-Maps :
      (start end : ℕ) (first last : Option ℕ × Bool)
      → IsThere segments first
      → IsThere segments last
      → Maps (map_across segments start end first last)
  map_across-Maps start end (i, a) (j, b) h k =
      let (p, e) = map_boundary-IsSome segments ordered start i a false h in
      let (q, f) = map_boundary-IsSome segments ordered end j b true k in
      (
        record { range = new_range p (max p q); fidelity = SpanMapFidelity.approximate },
        rw (e, ◌and_then◌, f) refl,
        new_range-le p (max p q),
      )

  -- For segments that are not inverted: every virtual range, also one that is inverted, is mapped
  -- without a panic, to a range that is not inverted.
  pub map_range-Maps : (range : TextRange) → Maps (map_range segments range)
  unfolding map_range
  map_range-Maps range =
      let start = range.pos in
      let end = max range.end start in
      elim (Bool-cases (start == end)) [
        | inl h ↦
            let (m, e) = map_point-IsSome segments ordered start in
            (
              record { range = empty_range m.position; fidelity = m.fidelity },
              rw (h, e, ◌and_then◌) refl,
              omega arith,
            )
        | inr h ↦
            let (first, e, a) = segment_index_at-IsThere segments start in
            let (last, f, b) = segment_index_at-IsThere segments (end - 1) in
            elim (Bool-cases (is_same_place first last)) [
              | inl k ↦
                  let (m, g, le) = map_within-Maps start end first a in
                  (m, rw (h, e, ◌and_then◌, f, k) g, le)
              | inr k ↦
                  let (m, g, le) = map_across-Maps start end first last a b in
                  (m, rw (h, e, ◌and_then◌, f, k) g, le)
            ]
      ]

-- A segment that serves a feature holds a virtual position.
abbrev pub serves : SpanMapFeature → ℕ → SpanMapSegment → Bool
serves feature position s =
    leb s.virtual_start position && (ltb position s.virtual_end && supports s feature)

module _ (feature : SpanMapFeature) (position : ℕ) where
  covered_loop-serves :
      (segments : List SpanMapSegment) (through end : ℕ)
      → covered_loop segments feature through end ≡ true
      → through ≤ position
      → position < end
      → any (serves feature position) segments ≡ true
  unfolding covered_loop
  covered_loop-serves [] through end h le lt = absurd (ground arith)
  covered_loop-serves (s ∷ segments) through end h le lt =
      ground (arith, covered_loop-serves segments s.virtual_end end)

  range_supports-serves :
      (segments : List SpanMapSegment) (start end : ℕ) (place : Option ℕ × Bool)
      → range_supports segments feature start end place ≡ some true
      → start ≤ position
      → position < end
      → any (serves feature position) segments ≡ true
  range_supports-serves segments start end (none, inside) h le lt = absurd (cc)
  range_supports-serves segments start end (some index, false) h le lt = absurd (cc)
  range_supports-serves segments start end (some index, true) h le lt =
      any-drop (serves feature position) index segments
        (covered_loop-serves (drop index segments) start end (some-injective _ _ h) le lt)

  supported-serves :
      (segments : List SpanMapSegment) (range : TextRange)
      → virtual_range_supports_feature segments range feature ≡ some true
      → range.pos ≤ position
      → position < range.end
      → any (serves feature position) segments ≡ true
  unfolding virtual_range_supports_feature
  supported-serves segments range h le lt =
      let start = range.pos in
      let end = max range.end start in
      let wide : (start == end) ≡ false = ground arith in
      let (place, e, p) = and_then-eq-some (segment_index_at segments start) _ h in
      let q : range_supports segments feature start end place ≡ some true =
        sym (
          ap
            (λ b.
              if b
              then place_supports segments feature place
              else range_supports segments feature start end place)
            wide)
        ∙ p in
      range_supports-serves segments start end place q le (omega arith)

-- A range that is mapped for a feature, other than to an insertion point: each virtual position of
-- it is in a segment that serves the feature.
pub span_for_feature-serves :
    (segments : List SpanMapSegment) (range : TextRange) (feature : SpanMapFeature)
    (m : MappedRange)
    → virtual_to_original_span_for_feature segments range feature ≡ some m
    → is_none m.fidelity ≡ false
    → (position : ℕ) → range.pos ≤ position
    → position < range.end
    → any (serves feature position) segments ≡ true
unfolding virtual_to_original_span_for_feature
span_for_feature-serves segments range feature m h served position le lt =
    let (mapped, e, p) = and_then-eq-some (map_range segments range) _ h in
    let (supported, f, q) =
      and_then-eq-some (virtual_range_supports_feature segments range feature) _ p in
    elim (Bool-cases supported) [
      | inl t ↦ supported-serves feature position segments range (f ∙ ap some t) le lt
      | inr n ↦
          let lost : none_unless false mapped ≡ m =
            ap (λ b. none_unless b mapped) (sym n) ∙ some-injective _ _ q in
          absurd (ground (arith, ap (λ r. is_none r.fidelity) lost))
    ]
