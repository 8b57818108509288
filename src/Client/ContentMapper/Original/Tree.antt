-- ===== src/Client/ContentMapper/Original/Tree.antt =====
-- The index that `original_index` of content_mapper.rs builds is a tree of greatest ends.
use Prim.Native.Nat.{max}
use native.Mathlib.Decide.{dec_lt}
use corsa_bind.Common.{
  ℕ, zero, suc, ◌+◌, ◌-◌, ◌*◌, ◌≤◌, ◌<◌, ◌≡◌, refl, ap, ◌∙◌, Option, some, List, [], ◌∷◌, length,
  get_elem?, arith, Bool-cases, inl, inr, ltb, sort_by, replicate, set, get_or, store_of_lt,
  length-set, length-replicate, get_or-set_self, get_or-set_ne, get_elem?-eq-get_or, ◌and_then◌,
}
use mathlib.Core.Option.{some-injective}
use corsa_bind.Client.ContentMapper.Segments.{SpanMapSegment}
use corsa_bind.Client.ContentMapper.Original.{
  OriginalIndex, by_original, grow_leaf_count, write_leaves, write_nodes, original_index,
}

-- The number of leaves below a node at height `h`.
abbrev pub width : ℕ → ℕ
width zero = 1
width (suc h) = width h + width h

pub width-positive : (h : ℕ) → 1 ≤ width h
width-positive zero = omega arith
width-positive (suc h) = omega (arith, width-positive h)

grow_leaf_count-width :
    (fuel k len : ℕ)
    → len ≤ width k + fuel
    → (h : ℕ) × (grow_leaf_count fuel (width k) len ≡ width h) × (len ≤ width h)
unfolding grow_leaf_count
grow_leaf_count-width zero k len le = (k, refl, omega arith)
grow_leaf_count-width (suc fuel) k len le = elim (Bool-cases (ltb (width k) len)) [
  | inl lt ↦
      let double : width k * 2 ≡ width (suc k) = omega arith in
      let (h, e, p) = grow_leaf_count-width fuel (suc k) len (omega (arith, width-positive k)) in
      (h, rw (lt, double) e, p)
  | inr ge ↦ (k, ground arith, ground arith)
]

-- `after` holds the ends of the segments, from the leaf at `offset` on.
abbrev Written : ℕ → ℕ → List SpanMapSegment → List ℕ → Type 0
Written leaf_count offset segments after =
    (i : ℕ) (s : SpanMapSegment)
    → get_elem? segments i ≡ some s
    → get_or after (leaf_count + offset + i) 0 ≡ s.original_end

record Leaves (leaf_count offset : ℕ) (segments : List SpanMapSegment) (before after : List ℕ)
    : Type 0 where
  same_length : length after ≡ length before
  below : (j : ℕ) → j < leaf_count + offset → get_or after j 0 ≡ get_or before j 0
  written : Written leaf_count offset segments after

written-cons :
    (leaf_count offset : ℕ) (s : SpanMapSegment) (segments : List SpanMapSegment) (after : List ℕ)
    → get_or after (leaf_count + offset) 0 ≡ s.original_end
    → Written leaf_count (suc offset) segments after
    → Written leaf_count offset (s ∷ segments) after
written-cons leaf_count offset s segments after here rest zero t h =
    let e : leaf_count + offset + 0 ≡ leaf_count + offset = omega arith in
    ap (λ j. get_or after j 0) e ∙ here ∙ ap (λ u. u.original_end) (some-injective _ _ h)
written-cons leaf_count offset s segments after here rest (suc i) t h =
    let e : leaf_count + offset + suc i ≡ leaf_count + suc offset + i = omega arith in
    ap (λ j. get_or after j 0) e ∙ rest i t h

write_leaves-Leaves :
    (leaf_count offset : ℕ) (segments : List SpanMapSegment) (array : List ℕ)
    → leaf_count + offset + length segments ≤ length array
    → (after : List ℕ) × (write_leaves leaf_count offset segments array ≡ some after)
      × Leaves leaf_count offset segments array after
unfolding write_leaves
write_leaves-Leaves leaf_count offset [] array fit = (
  array,
  refl,
  record { same_length = refl; below = λ j h. refl; written = λ i s h. absurd (cc) },
)
write_leaves-Leaves leaf_count offset (s ∷ segments) array fit =
    let at = leaf_count + offset in
    let next = set array at s.original_end in
    let keeps : length next ≡ length array = length-set array at s.original_end in
    let (after, e, l) =
      write_leaves-Leaves leaf_count (suc offset) segments next (omega (arith, keeps)) in
    let here : get_or after at 0 ≡ s.original_end =
      l.below at (omega arith) ∙ get_or-set_self array at s.original_end 0 (omega arith) in
    (
      after,
      rw (store_of_lt array at s.original_end (omega arith)) e,
      record {
        same_length = l.same_length ∙ keeps;
        below = λ j h.
            l.below j (omega arith) ∙ get_or-set_ne array at j s.original_end 0 (omega arith);
        written = written-cons leaf_count offset s segments after here l.written;
      },
    )

-- Each node from 1 to `n` holds the greater of its two children.
record Nodes (n : ℕ) (before after : List ℕ) : Type 0 where
  same_length : length after ≡ length before
  above : (j : ℕ) → n < j → get_or after j 0 ≡ get_or before j 0
  greatest :
      (j : ℕ)
      → 1 ≤ j
      → j ≤ n
      → get_or after j 0 ≡ max (get_or after (2 * j) 0) (get_or after (2 * j + 1) 0)

write_nodes-Nodes :
    (n : ℕ) (array : List ℕ)
    → 2 * n + 1 < length array
    → (after : List ℕ) × (write_nodes n array ≡ some after) × Nodes n array after
unfolding write_nodes
write_nodes-Nodes zero array fit = (
  array,
  refl,
  record { same_length = refl; above = λ j h. refl; greatest = λ j p q. absurd (omega arith) },
)
write_nodes-Nodes (suc n) array fit =
    let left = get_or array (2 * suc n) 0 in
    let right = get_or array (2 * suc n + 1) 0 in
    let next = set array (suc n) (max left right) in
    let keeps : length next ≡ length array = length-set array (suc n) (max left right) in
    let (after, e, l) = write_nodes-Nodes n next (omega (arith, keeps)) in
    let child : (j : ℕ) → suc n < j → get_or after j 0 ≡ get_or array j 0 = λ j h.
      l.above j (omega arith) ∙ get_or-set_ne array (suc n) j (max left right) 0 (omega arith) in
    (
      after,
      rw
          (
            get_elem?-eq-get_or array (2 * suc n) 0 (omega arith),
            get_elem?-eq-get_or array (2 * suc n + 1) 0 (omega arith),
            store_of_lt array (suc n) (max left right) (omega arith),
          )
          e,
      record {
        same_length = l.same_length ∙ keeps;
        above = child;
        greatest = λ j p q. elim (dec_lt j (suc n)) [
          | yes lt ↦ l.greatest j p (omega arith)
          | no ge ↦
              let same : j ≡ suc n = omega arith in
              rw same (
                l.above (suc n) (omega arith)
                ∙ get_or-set_self array (suc n) (max left right) 0 (omega arith)
                ∙ omega
                    (arith, child (2 * suc n) (omega arith), child (2 * suc n + 1) (omega arith)))
        ];
      },
    )

-- The index is a tree of greatest ends over its segments, with a leaf for each.
pub record IsTree (index : OriginalIndex) : Type 0 where
  pub height : ℕ
  pub leaves_are : index.leaf_count ≡ width height
  pub fits : length index.segments ≤ index.leaf_count
  pub nodes_are : length index.max_ends ≡ 2 * index.leaf_count
  pub leaf_is :
      (i : ℕ) (s : SpanMapSegment)
      → get_elem? index.segments i ≡ some s
      → get_or index.max_ends (index.leaf_count + i) 0 ≡ s.original_end
  pub node_is :
      (j : ℕ)
      → 1 ≤ j
      → j < index.leaf_count
      → get_or index.max_ends j 0
        ≡ max (get_or index.max_ends (2 * j) 0) (get_or index.max_ends (2 * j + 1) 0)

module _ (segments : List SpanMapSegment) (leaf_count height : ℕ) where
  fill : Option (List ℕ)
  fill =
      write_leaves leaf_count 0 segments (replicate (2 * leaf_count) 0)
      and_then write_nodes (leaf_count - 1)

  fill-IsTree :
      leaf_count ≡ width height
      → length segments ≤ leaf_count
      → (max_ends : List ℕ) × (fill ≡ some max_ends)
        × IsTree (record { segments = segments; leaf_count = leaf_count; max_ends = max_ends })
  unfolding fill
  fill-IsTree e fit =
      let positive : 1 ≤ leaf_count = omega (arith, width-positive height) in
      let empty : List ℕ = replicate (2 * leaf_count) 0 in
      let size : length empty ≡ 2 * leaf_count = length-replicate (2 * leaf_count) 0 in
      let (leaves, p, l) = write_leaves-Leaves leaf_count 0 segments empty (omega arith) in
      let kept : length leaves ≡ length empty = l.same_length in
      let (max_ends, q, n) = write_nodes-Nodes (leaf_count - 1) leaves (omega arith) in
      (
        max_ends,
        rw p q,
        record {
          height = height;
          leaves_are = e;
          fits = fit;
          nodes_are = n.same_length ∙ kept ∙ size;
          leaf_is = λ i s g.
              let e : leaf_count + i ≡ leaf_count + 0 + i = omega arith in
              n.above (leaf_count + i) (omega arith)
              ∙ ap (λ j. get_or leaves j 0) e
              ∙ l.written i s g;
          node_is = λ j a b. n.greatest j a (omega arith);
        },
      )

pub original_index-IsTree :
    (segments : List SpanMapSegment)
    → (index : OriginalIndex) × (original_index segments ≡ some index)
      × (index.segments ≡ sort_by by_original segments)
      × IsTree index
unfolding original_index fill
original_index-IsTree segments =
    let sorted : List SpanMapSegment = sort_by by_original segments in
    let leaf_count : ℕ = grow_leaf_count (length sorted) 1 (length sorted) in
    let (h, e, fit) = grow_leaf_count-width (length sorted) 0 (length sorted) (omega arith) in
    let (max_ends, p, t) = fill-IsTree sorted leaf_count h e (omega arith) in
    (record { segments = sorted; leaf_count = leaf_count; max_ends = max_ends }, rw p refl, refl, t)
