-- ===== src/Client/ContentMapper/Original/Search.antt =====
-- The search of the tree of greatest ends in content_mapper.rs finds what a filter of the whole list
-- finds.
use corsa_bind.Common.{
  ℕ, zero, suc, ◌+◌, ◌-◌, ◌*◌, ◌/◌, ◌≤◌, ◌<◌, ◌==◌, nat_eq, ◌≡◌, refl, ◌∙◌, sym, Bool, true, false,
  ◌&&◌, ◌||◌, Option, some, List, [], ◌∷◌, ◌++◌, length, take, drop, get_elem?, arith, ltb, get_or,
  get_elem?-eq-get_or, get_elem?-take-some, get_elem?-drop, All-of_get_elem?, filter, filter_none,
  ◌and_then◌,
}
use native.Mathlib.Decide.{dec_lt}
use corsa_bind.Client.ContentMapper.Segments.{SpanMapSegment}
use corsa_bind.Client.ContentMapper.Original.{
  OriginalIndex, is_cut, collect_segments_ending_at_or_after,
}
use corsa_bind.Client.ContentMapper.Original.Tree.{width, width-positive, IsTree}

-- The end of a segment reaches a position.
abbrev pub reaches : ℕ → Bool → SpanMapSegment → Bool
reaches position include_end s =
    ltb position s.original_end || (include_end && (s.original_end == position))

pub height-lt-width : (h : ℕ) → h < width h
height-lt-width zero = omega arith
height-lt-width (suc h) = omega (arith, height-lt-width h)

-- The node stands for the leaves from `start` on.
pub record Covers (index : OriginalIndex) (h node start : ℕ) : Type 0 where
  pub position_is : node * width h ≡ index.leaf_count + start
  pub inside : start + width h ≤ index.leaf_count

-- The segments that a node stands for, among those before the limit.
abbrev pub part : OriginalIndex → ℕ → ℕ → ℕ → List SpanMapSegment
part index limit start n = take n (drop start (take limit index.segments))

abbrev pub max_end : OriginalIndex → ℕ → ℕ
max_end index node = get_or index.max_ends node 0

module _ (index : OriginalIndex) (t : IsTree index) where
  leaf_count-positive : 1 ≤ index.leaf_count
  leaf_count-positive = omega (arith, t.leaves_are, width-positive t.height)

  pub Covers-root : Covers index t.height 1 0
  Covers-root = record {
    position_is = omega (arith, t.leaves_are);
    inside = omega (arith, t.leaves_are);
  }

  pub Covers-left :
      (h node start : ℕ) → Covers index (suc h) node start → Covers index h (2 * node) start
  Covers-left h node start c = record {
    position_is = grind (arith, c.position_is);
    inside = omega (arith, c.inside);
  }

  pub Covers-right :
      (h node start : ℕ)
      → Covers index (suc h) node start
      → Covers index h (2 * node + 1) (start + width h)
  Covers-right h node start c = record {
    position_is = grind (arith, c.position_is);
    inside = omega (arith, c.inside);
  }

  Covers-node-lt : (h node start : ℕ) → Covers index h node start → node < 2 * index.leaf_count
  Covers-node-lt h node start c =
      grind (arith, c.position_is, c.inside, width-positive h, leaf_count-positive)

  Covers-inner :
      (h node start : ℕ) → Covers index (suc h) node start → (1 ≤ node) × (node < index.leaf_count)
  Covers-inner h node start c =
      grind (arith, c.position_is, c.inside, width-positive h, leaf_count-positive)

  end-le_node :
      (h node start i : ℕ) (s : SpanMapSegment)
      → Covers index h node start
      → start ≤ i
      → i < start + width h
      → get_elem? index.segments i ≡ some s
      → s.original_end ≤ get_or index.max_ends node 0
  end-le_node zero node start i s c lo hi e =
      let at : node ≡ index.leaf_count + i = omega (arith, c.position_is) in
      rw at (omega (arith, t.leaf_is i s e))
  end-le_node (suc h) node start i s c lo hi e =
      let (a, b) = Covers-inner h node start c in
      elim (dec_lt i (start + width h)) [
        | yes lt ↦
            let le = end-le_node h (2 * node) start i s (Covers-left h node start c) lo lt e in
            omega (arith, t.node_is node a b)
        | no ge ↦
            let le =
              end-le_node h (2 * node + 1) (start + width h) i s (Covers-right h node start c)
                (omega arith) (omega arith) e in
            omega (arith, t.node_is node a b)
      ]

  max_end_is :
      (h node start : ℕ)
      → Covers index h node start
      → get_elem? index.max_ends node ≡ some (get_or index.max_ends node 0)
  max_end_is h node start c =
      get_elem?-eq-get_or index.max_ends node 0
        (omega (arith, t.nodes_are, Covers-node-lt h node start c))

  module _ (limit position : ℕ) (include_end : Bool) (limited : limit ≤ length index.segments) where
    abbrev walk : ℕ → ℕ → ℕ → ℕ → List SpanMapSegment → Option (List SpanMapSegment)
    walk = collect_segments_ending_at_or_after index limit position include_end

    abbrev cut : ℕ → ℕ → Bool
    cut = is_cut index limit position include_end

    part-some :
        (start n i : ℕ) (s : SpanMapSegment)
        → get_elem? (part index limit start n) i ≡ some s
        → (i < n) × (start + i < limit) × (get_elem? index.segments (start + i) ≡ some s)
    part-some start n i s h =
        let (lt, p) = get_elem?-take-some n i _ s h in
        let q = sym (get_elem?-drop start i _) ∙ p in
        let (below, r) = get_elem?-take-some limit (start + i) index.segments s q in (lt, below, r)

    pub filter-part_cut :
        (h node start : ℕ)
        → Covers index h node start
        → cut start (max_end index node) ≡ true
        → filter (reaches position include_end) (part index limit start (width h)) ≡ []
    unfolding is_cut
    filter-part_cut h node start c e =
        filter_none (reaches position include_end) (part index limit start (width h)) (
          All-of_get_elem? _ (part index limit start (width h)) λ i s g.
            let (lt, below, at) = part-some start (width h) i s g in
            let le = end-le_node h node start (start + i) s c (omega arith) (omega arith) at in
            ground arith)

    pub walk-cut :
        (fuel h node start end : ℕ) (results : List SpanMapSegment)
        → Covers index h node start
        → cut start (max_end index node) ≡ true
        → walk (suc fuel) node start end results ≡ some results
    unfolding collect_segments_ending_at_or_after
    walk-cut fuel h node start end results c e = rw (max_end_is h node start c, ◌and_then◌, e) refl

    pub walk-leaf :
        (fuel node start : ℕ) (s : SpanMapSegment) (results : List SpanMapSegment)
        → Covers index 0 node start
        → cut start (max_end index node) ≡ false
        → get_elem? index.segments start ≡ some s
        → walk (suc fuel) node start (start + 1) results ≡ some (results ++ s ∷ [])
    unfolding collect_segments_ending_at_or_after
    walk-leaf fuel node start s results c e g =
        let one : (start + 1 - start == 1) ≡ true = ground arith in
        rw (max_end_is 0 node start c, ◌and_then◌, e, one, g) refl

    pub walk-split :
        (fuel h node start : ℕ) (results : List SpanMapSegment)
        → Covers index (suc h) node start
        → cut start (max_end index node) ≡ false
        → walk (suc fuel) node start (start + width (suc h)) results ≡ (
            walk fuel (2 * node) start (start + width h) results
            and_then walk fuel (2 * node + 1) (start + width h) (start + width h + width h))
    unfolding collect_segments_ending_at_or_after
    walk-split fuel h node start results c e =
        let many : (start + (width h + width h) - start == 1) ≡ false =
          ground (arith, width-positive h) in
        let half : start + (start + (width h + width h) - start) / 2 ≡ start + width h =
          omega arith in
        let right : start + (width h + width h) ≡ start + width h + width h = omega arith in
        rw (max_end_is (suc h) node start c, ◌and_then◌, e, many, half, right) refl
