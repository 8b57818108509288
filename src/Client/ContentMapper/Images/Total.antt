-- ===== src/Client/ContentMapper/Images/Total.antt =====
-- What `original_to_virtual_spans` of content_mapper.rs gives for a range of the original text.
use Prim.Native.Nat.{max}
use corsa_bind.Common.{
  ℕ, ◌+◌, ◌-◌, ◌==◌, nat_eq, ◌≡◌, refl, ap, ◌∙◌, sym, Bool, true, false, Option, some, none, List,
  [], ◌∷◌, map, arith, Bool-cases, inl, inr, ltb, leb, if◌then◌else◌, filter, All, All-mono,
  All-filter, All-sort_by, sort_by, ◌and_then◌,
}
use corsa_bind.Client.ContentMapper.Ranges.{
  TextRange, new_range, SpanMapFidelity, MappedPosition, MappedRange,
}
use corsa_bind.Client.ContentMapper.Features.{SpanMapFeature}
use corsa_bind.Client.ContentMapper.Segments.{
  SpanMapSegment, IsOrdered, virtual_range, supports, is_verbatim, map_verbatim_position,
}
use corsa_bind.Client.ContentMapper.Original.{
  OriginalIndex, by_original, some_if_any, original_index, segments_at_original_position,
}
use corsa_bind.Client.ContentMapper.Original.Tree.{original_index-IsTree}
use corsa_bind.Client.ContentMapper.Original.Position.{
  stands_at, segments_at_original_position-filter,
}
use corsa_bind.Client.ContentMapper.Projections.Positions.{original_to_virtual_positions-any}
use corsa_bind.Client.ContentMapper.Virtual.Total.{IsSome}
use corsa_bind.Client.ContentMapper.Virtual.Spans.{new_range-le}
use corsa_bind.Client.ContentMapper.Images.Pairs.{IsForward, pair_spans-IsForward}
use corsa_bind.Client.ContentMapper.Images.{
  map_each, boundary_through, original_projections, span_through,
  original_to_virtual_spans_in_segments, pairs_of, approximate_spans, spans_found, by_pos,
  spans_between, empty_span, original_to_virtual_spans,
}

map_each-All :
    {B : Type 0} (Q : B → Type 0) (f : SpanMapSegment → Option B) (segments : List SpanMapSegment)
    → ((s : SpanMapSegment) → IsOrdered s → (y : B) × (f s ≡ some y) × Q y)
    → All IsOrdered segments
    → (ys : List B) × (map_each f segments ≡ some ys) × All Q ys
map_each-All Q f [] g o = ([], refl, tt)
map_each-All Q f (s ∷ segments) g o =
    let (y, e, q) = g s o.0 in
    let (ys, es, qs) = map_each-All Q f segments g o.1 in
    (y ∷ ys, rw (e, ◌and_then◌, es) refl, (q, qs))

reversed-IsSome :
    (position : ℕ) (s : SpanMapSegment)
    → IsOrdered s
    → IsSome (map_verbatim_position s position true)
unfolding map_verbatim_position
reversed-IsSome position s o =
    let le : ltb s.virtual_end s.virtual_start ≡ false = ground (arith, o.virtual_le) in
    elim (Bool-cases (ltb (s.virtual_start + position) (s.virtual_start + s.original_start))) [
      | inl h ↦ (s.virtual_start, rw (le, h) refl)
      | inr h ↦
          elim (Bool-cases (ltb (s.virtual_end + s.original_start) (s.virtual_start + position))) [
            | inl k ↦ (s.virtual_end, rw (le, h, k) refl)
            | inr k ↦ (s.virtual_start + position - s.original_start, rw (le, h, k) refl)
          ]
    ]

span_through-IsForward :
    (start end : ℕ) (s : SpanMapSegment)
    → IsOrdered s
    → (m : MappedRange) × (span_through start end s ≡ some m) × IsForward m
span_through-IsForward start end s o = elim (Bool-cases (is_verbatim s.kind)) [
  | inl v ↦
      let (p, e) = reversed-IsSome start s o in
      let (q, f) = reversed-IsSome end s o in
      (
        record { range = new_range p (max p q); fidelity = SpanMapFidelity.exact },
        rw (v, e, ◌and_then◌, f) refl,
        new_range-le p (max p q),
      )
  | inr v ↦ (
    record { range = virtual_range s; fidelity = SpanMapFidelity.atom },
    rw v refl,
    new_range-le s.virtual_start s.virtual_end,
  )
]

boundary_through-some :
    (position : ℕ) (at_end : Bool) (s : SpanMapSegment)
    → IsOrdered s
    → (y : ℕ) × (boundary_through position at_end s ≡ some y) × Unit {0}
boundary_through-some position at_end s o = elim (Bool-cases (is_verbatim s.kind)) [
  | inl v ↦ let (p, e) = reversed-IsSome position s o in (p, rw v e, tt)
  | inr v ↦ (if at_end then s.virtual_end else s.virtual_start, rw v refl, tt)
]

pairs_of-IsForward : (starts ends : List ℕ) → All IsForward (pairs_of starts ends)
pairs_of-IsForward [] ends = tt
pairs_of-IsForward (s ∷ starts) [] = tt
pairs_of-IsForward (s ∷ starts) (e ∷ ends) = pair_spans-IsForward (e ∷ ends) (s ∷ starts)

-- A list of ranges that are not inverted.
abbrev pub Forward : Option (List MappedRange) → Type 0
Forward o = (results : List MappedRange) × (o ≡ some results) × All IsForward results

abbrev AllOf : Option (List SpanMapSegment) → Type 0
AllOf none = Unit
AllOf (some segments) = All IsOrdered segments

module _ (feature : SpanMapFeature) where
  supporting-All :
      (segments : List SpanMapSegment)
      → All IsOrdered segments
      → All IsOrdered (filter (λ s. supports s feature) segments)
  supporting-All segments o =
      All-mono _ _ (λ s h. h.0) (filter (λ s. supports s feature) segments)
        (All-filter IsOrdered (λ s. supports s feature) segments o)

  original_projections-IsSome :
      (segments : List SpanMapSegment) (position : ℕ) (at_end : Bool)
      → All IsOrdered segments
      → IsSome (original_projections segments position feature at_end)
  unfolding original_projections
  original_projections-IsSome segments position at_end o =
      let (ys, e, q) =
        map_each-All (λ n. Unit) (boundary_through position at_end) _
          (boundary_through-some position at_end) (supporting-All segments o) in
      (ys, e)

  approximate_spans-Forward :
      (ss ts : List SpanMapSegment) (start end : ℕ)
      → All IsOrdered ss
      → All IsOrdered ts
      → Forward (approximate_spans ss ts start end feature)
  approximate_spans-Forward ss ts start end o p =
      let (starts, e) = original_projections-IsSome ss start false o in
      let (ends, f) = original_projections-IsSome ts end true p in
      (
        pairs_of (sort_by leb starts) (sort_by leb ends),
        rw (e, ◌and_then◌, f) refl,
        pairs_of-IsForward (sort_by leb starts) (sort_by leb ends),
      )

  spans_found-Forward :
      (results : List MappedRange) (ss ts : List SpanMapSegment) (start end : ℕ)
      → All IsForward results
      → All IsOrdered ss
      → All IsOrdered ts
      → Forward (spans_found results ss ts start end feature)
  spans_found-Forward [] ss ts start end f o p = approximate_spans-Forward ss ts start end o p
  spans_found-Forward (m ∷ more) ss ts start end f o p =
      (sort_by by_pos (m ∷ more), refl, All-sort_by by_pos IsForward (m ∷ more) f)

  spans_between-Forward :
      (ss ts : Option (List SpanMapSegment)) (start end : ℕ)
      → AllOf ss
      → AllOf ts
      → Forward (spans_between ss ts start end feature)
  unfolding original_to_virtual_spans_in_segments
  spans_between-Forward none ts start end o p = ([], refl, tt)
  spans_between-Forward (some ss) none start end o p = ([], refl, tt)
  spans_between-Forward (some ss) (some ts) start end o p =
      let contained : All IsOrdered (filter (λ s. leb end s.original_end) ss) =
        All-mono _ _ (λ s h. h.0) _ (All-filter IsOrdered (λ s. leb end s.original_end) ss o) in
      let (results, e, f) =
        map_each-All IsForward (span_through start end) _ (span_through-IsForward start end)
          (supporting-All _ contained) in
      let (found, g, q) = spans_found-Forward results ss ts start end f o p in
      (found, rw (e, ◌and_then◌) g, q)

some_if_any-AllOf :
    (segments : List SpanMapSegment) → All IsOrdered segments → AllOf (some_if_any segments)
some_if_any-AllOf [] o = tt
some_if_any-AllOf (s ∷ segments) o = o

module _ (segments : List SpanMapSegment) (ordered : All IsOrdered segments) where
  standing : ℕ → List SpanMapSegment
  standing position = filter (stands_at position) (sort_by by_original segments)

  standing-AllOf : (position : ℕ) → AllOf (some_if_any (standing position))
  unfolding standing
  standing-AllOf position =
      let sorted = All-sort_by by_original IsOrdered segments ordered in
      some_if_any-AllOf _
        (All-mono _ _ (λ s h. h.0) _ (All-filter IsOrdered (stands_at position) _ sorted))

  search :
      (index : OriginalIndex) (position : ℕ)
      → original_index segments ≡ some index
      → segments_at_original_position index position ≡ some (some_if_any (standing position))
  unfolding standing
  search index position e =
      sym (ap (λ o. o and_then λ i. segments_at_original_position i position) e)
      ∙ segments_at_original_position-filter segments position

  -- For segments that are not inverted: every range of the original text, also one that is inverted,
  -- is mapped without a panic, to ranges that are not inverted.
  pub original_to_virtual_spans-Forward :
      (range : TextRange) (feature : SpanMapFeature)
      → Forward (original_to_virtual_spans segments range feature)
  unfolding original_to_virtual_spans
  original_to_virtual_spans-Forward range feature =
      let start = range.pos in
      let end = max range.end start in
      elim (Bool-cases (start == end)) [
        | inl h ↦
            let (positions, e, by, once, found) =
              original_to_virtual_positions-any segments start feature ordered in
            (map empty_span positions, rw (h, e, ◌and_then◌) refl, empty_spans positions)
        | inr h ↦
            let (index, e, is, t) = original_index-IsTree segments in
            let (results, f, q) =
              spans_between-Forward feature (some_if_any (standing start))
                (some_if_any (standing (end - 1))) start end (standing-AllOf start)
                (standing-AllOf (end - 1)) in
            (results, rw (h, e, ◌and_then◌, search index start e, search index (end - 1) e) f, q)
      ]
    where
      empty_spans : (positions : List MappedPosition) → All IsForward (map empty_span positions)
      empty_spans [] = tt
      empty_spans (m ∷ positions) = (omega arith, empty_spans positions)
