-- ===== src/Client/ContentMapper/Original/Lookup.antt =====
-- The segments that content_mapper.rs finds at a position of the original text are those that a
-- filter of all segments finds, in the order of the original text.
use corsa_bind.Common.{
  ℕ, zero, suc, ◌+◌, ◌*◌, ◌≤◌, ◌<◌, nat_eq, ◌≡◌, refl, ap, ◌∙◌, sym, Bool, true, false, Option,
  some, List, [], ◌∷◌, ◌++◌, append_assoc, append-nil, length, take, drop, get_elem?, arith,
  Bool-cases, inl, inr, get_elem?-lt, filter, filter-append, take-add, take_one, take_all,
  length-take, drop-drop, get_elem?-take, ◌and_then◌,
}
use corsa_bind.Client.ContentMapper.Segments.{SpanMapSegment}
use corsa_bind.Client.ContentMapper.Original.{
  OriginalIndex, is_cut, collect_segments_ending_at_or_after, segments_ending_at_or_after,
}
use corsa_bind.Client.ContentMapper.Original.Tree.{width, IsTree}
use corsa_bind.Client.ContentMapper.Original.Search.{
  reaches, height-lt-width, Covers, Covers-root, Covers-left, Covers-right, part, max_end,
  filter-part_cut, walk-cut, walk-leaf, walk-split,
}

module _ (index : OriginalIndex) (t : IsTree index) (limit position : ℕ) (include_end : Bool)
    (limited : limit ≤ length index.segments) where
  abbrev found : ℕ → ℕ → List SpanMapSegment
  found start n = filter (reaches position include_end) (part index limit start n)

  abbrev walk : ℕ → ℕ → ℕ → ℕ → List SpanMapSegment → Option (List SpanMapSegment)
  walk = collect_segments_ending_at_or_after index limit position include_end

  abbrev cut : ℕ → ℕ → Bool
  cut = is_cut index limit position include_end

  filter-leaf :
      (node start : ℕ)
      → Covers index 0 node start
      → cut start (max_end index node) ≡ false
      → (s : SpanMapSegment) × (get_elem? index.segments start ≡ some s) × (found start 1 ≡ s ∷ [])
  unfolding is_cut
  filter-leaf node start c e =
      let below : start < limit = ground arith in
      let (s, g) = get_elem?-lt index.segments start (omega arith) in
      let at : node ≡ index.leaf_count + start = omega (arith, c.position_is) in
      let end = t.leaf_is start s g in
      let is : reaches position include_end s ≡ true = ground (arith, at, end) in
      (
        s,
        g,
        rw
            (
              take_one start s (take limit index.segments) (get_elem?-take limit start _ below ∙ g),
              is,
            )
            refl,
      )

  found-split : (start n : ℕ) → found start (n + n) ≡ found start n ++ found (start + n) n
  found-split start n =
      let l = take limit index.segments in
      ap (filter (reaches position include_end)) (
        take-add n n (drop start l)
        ∙ ap (λ r. take n (drop start l) ++ take n r) (drop-drop start n l))
      ∙ filter-append (reaches position include_end) (part index limit start n)
          (part index limit (start + n) n)

  walk-found_cut :
      (fuel h node start : ℕ) (results : List SpanMapSegment)
      → Covers index h node start
      → cut start (max_end index node) ≡ true
      → walk (suc fuel) node start (start + width h) results
        ≡ some (results ++ found start (width h))
  walk-found_cut fuel h node start results c e =
      let none_there =
        filter-part_cut index t limit position include_end limited h node start c e in
      walk-cut index t limit position include_end limited fuel h node start (start + width h)
        results c e
      ∙ ap some (sym (append-nil results) ∙ ap (λ r. results ++ r) (sym none_there))

  walk-found :
      (h fuel node start : ℕ) (results : List SpanMapSegment)
      → Covers index h node start
      → h < fuel
      → walk fuel node start (start + width h) results ≡ some (results ++ found start (width h))
  walk-found h zero node start results c lt = absurd (omega arith)
  walk-found zero (suc fuel) node start results c lt =
      elim (Bool-cases (cut start (max_end index node))) [
        | inl e ↦ walk-found_cut fuel 0 node start results c e
        | inr e ↦
            let (s, g, one) = filter-leaf node start c e in
            walk-leaf index t limit position include_end limited fuel node start s results c e g
            ∙ ap (λ r. some (results ++ r)) (sym one)
      ]
  walk-found (suc h) (suc fuel) node start results c lt =
      elim (Bool-cases (cut start (max_end index node))) [
        | inl e ↦ walk-found_cut fuel (suc h) node start results c e
        | inr e ↦
            let w = width h in
            let left =
              walk-found h fuel (2 * node) start results (Covers-left index t h node start c)
                (omega arith) in
            let right =
              walk-found h fuel (2 * node + 1) (start + w) (results ++ found start w)
                (Covers-right index t h node start c) (omega arith) in
            walk-split index t limit position include_end limited fuel h node start results c e
            ∙ rw (left, ◌and_then◌) right
            ∙ ap some (
                append_assoc results (found start w) (found (start + w) w)
                ∙ ap (λ r. results ++ r) (sym (found-split start w)))
      ]

  -- The search of the tree gives the segments before the limit whose end reaches the position.
  pub segments_ending_at_or_after-filter :
      segments_ending_at_or_after index limit position include_end
      ≡ some (filter (reaches position include_end) (take limit index.segments))
  unfolding segments_ending_at_or_after
  segments_ending_at_or_after-filter =
      let h = t.height in
      let fuel : h < suc index.leaf_count = omega (arith, height-lt-width h, t.leaves_are) in
      let all : length (take limit index.segments) ≤ width h =
        omega (arith, length-take limit index.segments limited, t.fits, t.leaves_are) in
      let root : 0 + width h ≡ index.leaf_count = omega (arith, t.leaves_are) in
      ap (λ n. walk (suc index.leaf_count) 1 0 n []) (sym root)
      ∙ walk-found h (suc index.leaf_count) 1 0 [] (Covers-root index t) fuel
      ∙ ap (λ r. some (filter (reaches position include_end) r)) (take_all (width h) _ all)
