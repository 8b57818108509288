-- ===== src/Client/ContentMapper/Virtual/Total.antt =====
-- No map from virtual text to the original of content_mapper.rs panics.
use corsa_bind.Common.{
  ℕ, ◌+◌, ◌-◌, ◌==◌, nat_eq, ◌≡◌, refl, Bool, true, false, ◌&&◌, ◌||◌, nat_cases, Option, some,
  none, List, length, get_elem?, arith, Bool-cases, inl, inr, ltb, if◌then◌else◌, All,
  All-get_elem?, get_elem?-lt, partition_point, partition_point-le, ◌and_then◌,
}
use corsa_bind.Client.ContentMapper.Ranges.{SpanMapFidelity}
use corsa_bind.Client.ContentMapper.Segments.{
  SpanMapSegment, IsOrdered, is_verbatim, map_verbatim_position,
}
use corsa_bind.Client.ContentMapper.Virtual.{
  starts_at, segment_index_at, insertion_point, map_boundary, map_point, map_point_at,
}

-- An option that holds a value.
abbrev pub IsSome {ℓ} : {A : Type ℓ} → Option A → Type ℓ
IsSome {A} o = (a : A) × (o ≡ some a)

starts_at-IsSome :
    (o : Option SpanMapSegment) (position : ℕ) → starts_at o position ≡ true → IsSome o
starts_at-IsSome none position h = absurd (cc)
starts_at-IsSome (some s) position h = (s, refl)

module _ (segments : List SpanMapSegment) where
  -- A place that names a segment names one that is there.
  abbrev pub IsThere : Option ℕ × Bool → Type 0
  IsThere (none, inside) = Unit
  IsThere (some i, inside) = IsSome (get_elem? segments i)

  pub segment_index_at-IsThere :
      (position : ℕ)
      → (place : Option ℕ × Bool) × (segment_index_at segments position ≡ some place)
        × IsThere place
  unfolding segment_index_at
  segment_index_at-IsThere position =
      let starts : SpanMapSegment → Bool = λ s. ltb s.virtual_start position in
      let le = partition_point-le starts segments in
      elim (Bool-cases
        (starts_at (get_elem? segments (partition_point starts segments)) position)) [
          | inl h ↦ (
            (some (partition_point starts segments), true),
            rw h refl,
            starts_at-IsSome _ position h,
          )
          | inr h ↦ elim (nat_cases (partition_point starts segments)) [
            | inl z ↦ ((none, false), rw (h, z) refl, tt)
            | inr k ↦
                let there : IsSome (get_elem? segments k.0) =
                  get_elem?-lt segments k.0 (omega (arith, k.1)) in
                (
                  (
                    some k.0,
                    ltb position there.0.virtual_end
                        || ((k.0 == length segments - 1) && (position == there.0.virtual_end)),
                  ),
                  rw (h, k.1, there.1, ◌and_then◌) refl,
                  there,
                )
          ]
        ]

  pub insertion_point-IsSome :
      (index : Option ℕ) (inside : Bool)
      → IsThere (index, inside)
      → IsSome (insertion_point segments index)
  unfolding insertion_point
  insertion_point-IsSome none inside h = (0, refl)
  insertion_point-IsSome (some i) inside (s, g) = (s.original_end, rw g refl)

  module _ (ordered : All IsOrdered segments) where
    pub map_verbatim_position-IsSome :
        (i position : ℕ) (s : SpanMapSegment)
        → get_elem? segments i ≡ some s
        → IsSome (map_verbatim_position s position false)
    unfolding map_verbatim_position
    map_verbatim_position-IsSome i position s g =
        let o : IsOrdered s = All-get_elem? IsOrdered segments i s ordered g in
        let le : ltb s.original_end s.original_start ≡ false = ground (arith, o.original_le) in
        elim (Bool-cases (ltb (s.original_start + position) (s.original_start + s.virtual_start))) [
          | inl h ↦ (s.original_start, rw (le, h) refl)
          | inr h ↦
              elim (Bool-cases
                (ltb (s.original_end + s.virtual_start) (s.original_start + position))) [
                  | inl k ↦ (s.original_end, rw (le, h, k) refl)
                  | inr k ↦ (s.original_start + position - s.virtual_start, rw (le, h, k) refl)
                ]
        ]

    pub map_boundary-IsSome :
        (position : ℕ) (index : Option ℕ) (inside high : Bool)
        → IsThere (index, inside)
        → IsSome (map_boundary segments position index inside high)
    unfolding map_boundary
    map_boundary-IsSome position (some i) true high (s, g) =
        elim (Bool-cases (is_verbatim s.kind)) [
          | inl v ↦
              let (p, e) = map_verbatim_position-IsSome i position s g in
              (p, rw (g, ◌and_then◌, v) e)
          | inr v ↦ (if high then s.original_end else s.original_start, rw (g, ◌and_then◌, v) refl)
        ]
    map_boundary-IsSome position (some i) false high h = insertion_point-IsSome (some i) false h
    map_boundary-IsSome position none inside high h = insertion_point-IsSome none inside tt

    map_point_at-IsSome :
        (position : ℕ) (place : Option ℕ × Bool)
        → IsThere place
        → IsSome (map_point_at segments position place)
    map_point_at-IsSome position (none, inside) h =
        let (p, e) = insertion_point-IsSome none inside tt in
        (record { position = p; fidelity = SpanMapFidelity.none }, rw e refl)
    map_point_at-IsSome position (some i, false) h =
        let (p, e) = insertion_point-IsSome (some i) false h in
        (record { position = p; fidelity = SpanMapFidelity.none }, rw e refl)
    map_point_at-IsSome position (some i, true) (s, g) = elim (Bool-cases (is_verbatim s.kind)) [
      | inl v ↦
          let (p, e) = map_verbatim_position-IsSome i position s g in
          (record { position = p; fidelity = SpanMapFidelity.exact }, rw (g, ◌and_then◌, v, e) refl)
      | inr v ↦ (
        record { position = s.original_start; fidelity = SpanMapFidelity.atom },
        rw (g, ◌and_then◌, v) refl,
      )
    ]

    pub map_point-IsSome : (position : ℕ) → IsSome (map_point segments position)
    unfolding map_point
    map_point-IsSome position =
        let (place, e, there) = segment_index_at-IsThere position in
        let (m, h) = map_point_at-IsSome position place there in (m, rw e h)
