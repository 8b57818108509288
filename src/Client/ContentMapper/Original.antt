-- ===== src/Client/ContentMapper/Original.antt =====
-- src/core/corsa_client/src/api/content_mapper.rs: the index of original positions, a flat tree of
-- the greatest ends, and the search in it. `none` is a panic, or fuel that ran out.
pub mod Tree
pub mod Search
pub mod Lookup
pub mod Position
use Prim.Native.Nat.{max}
use corsa_bind.Common.{
  ℕ, zero, suc, ◌+◌, ◌-◌, ◌*◌, ◌/◌, ◌==◌, nat_eq, Bool, true, false, not, ◌&&◌, ◌||◌, Option, some,
  none, List, [], ◌∷◌, ◌++◌, length, get_elem?, ltb, leb, if◌then◌else◌, ◌and_then◌, sort_by,
  partition_point, store, replicate, slice,
}
use corsa_bind.Client.ContentMapper.Segments.{SpanMapSegment}

pub record OriginalIndex : Type 0 where
  pub segments : List SpanMapSegment
  pub leaf_count : ℕ
  pub max_ends : List ℕ

-- By original start, then original end, then virtual start.
abbrev pub by_original : SpanMapSegment → SpanMapSegment → Bool
by_original s t =
    ltb s.original_start t.original_start
    || ((s.original_start == t.original_start)
        && (ltb s.original_end t.original_end
            || ((s.original_end == t.original_end) && leb s.virtual_start t.virtual_start)))

-- `while leaf_count < segments.len() { leaf_count *= 2 }`
unfoldable pub grow_leaf_count : ℕ → ℕ → ℕ → ℕ
grow_leaf_count zero leaf_count len = leaf_count
grow_leaf_count (suc fuel) leaf_count len =
    if ltb leaf_count len then grow_leaf_count fuel (leaf_count * 2) len else leaf_count

-- The leaves, from the one at `offset` on.
unfoldable pub write_leaves : ℕ → ℕ → List SpanMapSegment → List ℕ → Option (List ℕ)
write_leaves leaf_count offset [] max_ends = some max_ends
write_leaves leaf_count offset (s ∷ segments) max_ends =
    store max_ends (leaf_count + offset) s.original_end
    and_then write_leaves leaf_count (suc offset) segments

-- The inner nodes, from the given one down to 1.
unfoldable pub write_nodes : ℕ → List ℕ → Option (List ℕ)
write_nodes zero max_ends = some max_ends
write_nodes (suc n) max_ends = get_elem? max_ends (2 * suc n) and_then λ left.
    get_elem? max_ends (2 * suc n + 1) and_then λ right.
    store max_ends (suc n) (max left right) and_then write_nodes n

unfoldable pub original_index : List SpanMapSegment → Option OriginalIndex
original_index segments =
    let sorted = sort_by by_original segments in
    let leaf_count = grow_leaf_count (length sorted) 1 (length sorted) in
    write_leaves leaf_count 0 sorted (replicate (2 * leaf_count) 0)
    and_then write_nodes (leaf_count - 1)
    and_then λ max_ends.
        some (record { segments = sorted; leaf_count = leaf_count; max_ends = max_ends })

module _ (index : OriginalIndex) (limit position : ℕ) (include_end : Bool) where
  unfoldable pub is_cut : ℕ → ℕ → Bool
  is_cut start max_end =
      leb limit start || (ltb max_end position || (not include_end && (max_end == position)))

  -- The walk below `node`, which stands for the segments from `start` to `end`. Each level of the
  -- tree takes one unit of fuel.
  unfoldable pub collect_segments_ending_at_or_after :
      ℕ → ℕ → ℕ → ℕ → List SpanMapSegment → Option (List SpanMapSegment)
  collect_segments_ending_at_or_after zero node start end results = none
  collect_segments_ending_at_or_after (suc fuel) node start end results =
      get_elem? index.max_ends node and_then λ max_end. elim (is_cut start max_end) [
        | true ↦ some results
        | false ↦ elim (end - start == 1) [
          | true ↦ get_elem? index.segments start and_then λ s. some (results ++ s ∷ [])
          | false ↦
              let middle = start + (end - start) / 2 in
              collect_segments_ending_at_or_after fuel (2 * node) start middle results
              and_then collect_segments_ending_at_or_after fuel (2 * node + 1) middle end
        ]
      ]

  unfoldable pub segments_ending_at_or_after : Option (List SpanMapSegment)
  unfolding collect_segments_ending_at_or_after
  segments_ending_at_or_after =
      collect_segments_ending_at_or_after (suc index.leaf_count) 1 0 index.leaf_count []

abbrev pub first_original_segment_at_or_after : List SpanMapSegment → ℕ → ℕ
first_original_segment_at_or_after segments position =
    partition_point (λ s. ltb s.original_start position) segments

abbrev pub first_original_segment_after : List SpanMapSegment → ℕ → ℕ
first_original_segment_after segments position =
    partition_point (λ s. leb s.original_start position) segments

-- `(!results.is_empty()).then_some(results)`
abbrev pub some_if_any : List SpanMapSegment → Option (List SpanMapSegment)
some_if_any [] = none
some_if_any (s ∷ segments) = some (s ∷ segments)

-- The outer option is the panic, the inner one is the result.
unfoldable pub segments_at_original_position :
    OriginalIndex → ℕ → Option (Option (List SpanMapSegment))
segments_at_original_position index position =
    let start = first_original_segment_at_or_after index.segments position in
    let end = first_original_segment_after index.segments position in
    segments_ending_at_or_after index start position false and_then λ results.
    some (some_if_any (results ++ slice index.segments start end))
