-- ===== src/Client/ContentMapper/Images/Pairs.antt =====
-- The ranges that content_mapper.rs makes of the starts and the ends that a range of the original text
-- maps to.
use corsa_bind.Common.{
  ℕ, ◌≤◌, ◌<◌, nat_eq, ◌≡◌, refl, sym, subst, true, false, some, none, Option-cases, List, [], ◌∷◌,
  arith, Bool-cases, inl, inr, leb, All, All-mono, IsSorted,
}
use corsa_bind.Client.ContentMapper.Ranges.{new_range, SpanMapFidelity, MappedRange}
use corsa_bind.Client.ContentMapper.Virtual.Spans.{new_range-le}
use corsa_bind.Client.ContentMapper.Images.{find_end, is_shadowed, pair_spans}

-- A range that is not inverted.
abbrev pub IsForward : MappedRange → Type 0
IsForward m = m.range.pos ≤ m.range.end

new_range-end : (pos end : ℕ) → pos ≤ end → (new_range pos end).end ≡ end
unfolding new_range
new_range-end pos end le = ground arith

find_end-le : (start end : ℕ) (ends : List ℕ) → find_end start ends ≡ some end → start ≤ end
find_end-le start end [] h = absurd (cc)
find_end-le start end (e ∷ ends) h = ground (arith, find_end-le start end ends)

-- The ranges follow one another, each behind the end of those before it.
abbrev pub IsApart : List MappedRange → Type 0
IsApart [] = Unit
IsApart (m ∷ ranges) = All (λ n. m.range.end < n.range.pos) ranges × IsApart ranges

not_shadowed :
    (end : ℕ) (starts : List ℕ)
    → IsSorted leb starts
    → is_shadowed end starts ≡ false
    → All (λ s. end < s) starts
not_shadowed end [] sorted h = tt
not_shadowed end (s ∷ starts) sorted h =
    let lt : end < s = ground arith in (lt, All-mono _ _ (λ t le. ground arith) starts sorted.0)

module _ (ends : List ℕ) where
  pair_spans-skip :
      (start : ℕ) (starts : List ℕ)
      → find_end start ends ≡ none
      → pair_spans (start ∷ starts) ends ≡ pair_spans starts ends
  unfolding pair_spans
  pair_spans-skip start starts h = rw (pair_spans, h) refl

  pair_spans-shadowed :
      (start end : ℕ) (starts : List ℕ)
      → find_end start ends ≡ some end
      → is_shadowed end starts ≡ true
      → pair_spans (start ∷ starts) ends ≡ pair_spans starts ends
  unfolding pair_spans
  pair_spans-shadowed start end starts h k = rw (pair_spans, h, k) refl

  pair_spans-pair :
      (start end : ℕ) (starts : List ℕ)
      → find_end start ends ≡ some end
      → is_shadowed end starts ≡ false
      → pair_spans (start ∷ starts) ends
        ≡ (record { range = new_range start end; fidelity = SpanMapFidelity.approximate })
          ∷ pair_spans starts ends
  unfolding pair_spans
  pair_spans-pair start end starts h k = rw (pair_spans, h, k) refl

  -- The three ways in which a start can go.
  pair_spans-cases :
      (Q : List MappedRange → Type 0) (start : ℕ) (starts : List ℕ)
      → Q (pair_spans starts ends)
      → ((end : ℕ)
          → start ≤ end
          → is_shadowed end starts ≡ false
          → Q (
              (record { range = new_range start end; fidelity = SpanMapFidelity.approximate })
              ∷ pair_spans starts ends))
      → Q (pair_spans (start ∷ starts) ends)
  pair_spans-cases Q start starts skipped paired = elim (Option-cases (find_end start ends)) [
    | inl h ↦ subst Q (sym (pair_spans-skip start starts h)) skipped
    | inr e ↦ elim (Bool-cases (is_shadowed e.0 starts)) [
      | inl k ↦ subst Q (sym (pair_spans-shadowed start e.0 starts e.1 k)) skipped
      | inr k ↦
          subst Q (sym (pair_spans-pair start e.0 starts e.1 k))
            (paired e.0 (find_end-le start e.0 ends e.1) k)
    ]
  ]

  pub pair_spans-IsForward : (starts : List ℕ) → All IsForward (pair_spans starts ends)
  unfolding pair_spans
  pair_spans-IsForward [] = tt
  pair_spans-IsForward (start ∷ starts) =
      pair_spans-cases (All IsForward) start starts (pair_spans-IsForward starts)
        (λ end le h. (new_range-le start end, pair_spans-IsForward starts))

  pair_spans-after :
      (bound : ℕ) (starts : List ℕ)
      → All (λ s. bound < s) starts
      → All (λ n. bound < n.range.pos) (pair_spans starts ends)
  unfolding pair_spans new_range
  pair_spans-after bound [] h = tt
  pair_spans-after bound (start ∷ starts) h =
      pair_spans-cases (All (λ n. bound < n.range.pos)) start starts
        (pair_spans-after bound starts h.1) (λ end le k. (h.0, pair_spans-after bound starts h.1))

  -- For starts that are sorted: the ranges that are paired follow one another, each behind the end
  -- of those before it.
  pub pair_spans-IsApart :
      (starts : List ℕ) → IsSorted leb starts → IsApart (pair_spans starts ends)
  unfolding pair_spans
  pair_spans-IsApart [] sorted = tt
  pair_spans-IsApart (start ∷ starts) sorted =
      let rest = pair_spans-IsApart starts sorted.1 in
      pair_spans-cases IsApart start starts rest λ end le h.
        let exact : (new_range start end).end ≡ end = new_range-end start end le in
        let after = pair_spans-after end starts (not_shadowed end starts sorted.1 h) in
        (All-mono _ _ (λ n lt. omega (arith, exact)) (pair_spans starts ends) after, rest)
