-- ===== src/Client/ContentMapper/Virtual/Located.antt =====
-- Where `segment_index_at` of content_mapper.rs finds a virtual position, and what the position maps
-- to.
use corsa_bind.Common.{
  ℕ, zero, suc, ◌≤◌, ◌<◌, ◌==◌, nat_eq, ◌≡◌, refl, sym, subst, Bool, true, false, some,
  Option-cases, List, [], ◌∷◌, get_elem?, arith, Bool-cases, inl, inr, ltb, lt→ltb, if◌then◌else◌,
  All, All-mono, All-get_elem?, partition_point, ◌and_then◌,
}
use mathlib.Core.Option.{some-injective}
use corsa_bind.Client.ContentMapper.Segments.{SpanMapSegment}
use corsa_bind.Client.ContentMapper.Virtual.{segment_index_at}

-- In virtual order, no segment is empty and none overlaps another.
abbrev pub IsDisjoint : List SpanMapSegment → Type 0
IsDisjoint [] = Unit
IsDisjoint (s ∷ segments) =
    (s.virtual_start < s.virtual_end)
    × All (λ t. s.virtual_end ≤ t.virtual_start) segments
    × IsDisjoint segments

module _ (position : ℕ) where
  abbrev starts_before : SpanMapSegment → Bool
  starts_before s = ltb s.virtual_start position

  partition_point-zero :
      (segments : List SpanMapSegment)
      → All (λ s. position ≤ s.virtual_start) segments
      → partition_point starts_before segments ≡ 0
  partition_point-zero [] h = refl
  partition_point-zero (s ∷ segments) h = ground (arith, h.0)

  partition_point-inside :
      (segments : List SpanMapSegment) (i : ℕ) (s : SpanMapSegment)
      → IsDisjoint segments
      → get_elem? segments i ≡ some s
      → s.virtual_start ≤ position
      → position < s.virtual_end
      → partition_point starts_before segments ≡ (if starts_before s then suc i else i)
  partition_point-inside [] i s d g le lt = absurd (cc)
  partition_point-inside (t ∷ segments) zero s d g le lt =
      let same : t ≡ s = some-injective _ _ g in
      let later : position < t.virtual_end = subst (λ u. position < u.virtual_end) (sym same) lt in
      let rest = partition_point-zero segments (All-mono _ _ (λ u h. omega arith) segments d.1) in
      rw (sym same) (ground (arith, rest))
  partition_point-inside (t ∷ segments) (suc i) s d g le lt =
      let far = All-get_elem? _ segments i s d.1 g in
      let rest = partition_point-inside segments i s d.2 g le lt in ground (arith, d.0)

next_after :
    (segments : List SpanMapSegment) (i : ℕ) (s t : SpanMapSegment)
    → IsDisjoint segments
    → get_elem? segments i ≡ some s
    → get_elem? segments (suc i) ≡ some t
    → s.virtual_end ≤ t.virtual_start
next_after [] i s t d g h = absurd (cc)
next_after (u ∷ segments) zero s t d g h =
    let same : u ≡ s = some-injective _ _ g in
    subst (λ v. v.virtual_end ≤ t.virtual_start) same (All-get_elem? _ segments 0 t d.1 h)
next_after (u ∷ segments) (suc i) s t d g h = next_after segments i s t d.2 g h

-- In segments that are disjoint, a position in a segment is found there.
pub segment_index_at-inside :
    (segments : List SpanMapSegment) (position i : ℕ) (s : SpanMapSegment)
    → IsDisjoint segments
    → get_elem? segments i ≡ some s
    → s.virtual_start ≤ position
    → position < s.virtual_end
    → segment_index_at segments position ≡ some (some i, true)
unfolding segment_index_at
segment_index_at-inside segments position i s d g le lt =
    let low = partition_point-inside position segments i s d g le lt in
    elim (Bool-cases (ltb s.virtual_start position)) [
      | inl h ↦
          let at : partition_point (λ t. ltb t.virtual_start position) segments ≡ suc i =
            ground arith in
          elim (Option-cases (get_elem? segments (suc i))) [
            | inl n ↦ rw (at, n, g, ◌and_then◌, lt→ltb position s.virtual_end lt) refl
            | inr n ↦
                let later : (n.0.virtual_start == position) ≡ false =
                  ground (arith, next_after segments i s n.0 d g n.1) in
                rw (at, n.1, later, g, ◌and_then◌, lt→ltb position s.virtual_end lt) refl
          ]
      | inr h ↦
          let at : partition_point (λ t. ltb t.virtual_start position) segments ≡ i =
            ground arith in
          let here : (s.virtual_start == position) ≡ true = ground arith in rw (at, g, here) refl
    ]
