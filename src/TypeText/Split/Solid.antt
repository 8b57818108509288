-- ===== src/TypeText/Split/Solid.antt =====
-- Texts that neither start nor end with white space, and what `trim` gives.
use corsa_bind.Common.{
  ℕ, suc, ◌≤◌, ◌≡◌, refl, ap, ◌∙◌, arith, Bool, true, false, not, [], ◌∷◌, ◌++◌, length, filter,
}
use corsa_bind.TypeText.Chars.{
  Chars, is_whitespace, trim_start, before_trimmed, trim_end, trim, is_empty,
}

abbrev pub starts_solid : Chars → Bool
starts_solid [] = false
starts_solid (c ∷ cs) = not (is_whitespace c)

abbrev pub ends_solid : Chars → Bool
ends_solid [] = false
ends_solid (c ∷ []) = not (is_whitespace c)
ends_solid (c ∷ d ∷ cs) = ends_solid (d ∷ cs)

trim_start_solid : (cs : Chars) → starts_solid cs ≡ true → trim_start cs ≡ cs
trim_start_solid [] h = refl
trim_start_solid (c ∷ cs) h = ground arith

trim_end_solid : (cs : Chars) → ends_solid cs ≡ true → trim_end cs ≡ cs
trim_end_solid [] h = refl
trim_end_solid (c ∷ []) h = ground arith
trim_end_solid (c ∷ d ∷ cs) h = rw (trim_end_solid (d ∷ cs) h) refl

-- A text that is solid at both ends is not changed.
pub trim_solid : (cs : Chars) → starts_solid cs ≡ true → ends_solid cs ≡ true → trim cs ≡ cs
trim_solid cs s e = ap trim_end (trim_start_solid cs s) ∙ trim_end_solid cs e

pub ends_solid-append : (cs ds : Chars) → ends_solid ds ≡ true → ends_solid (cs ++ ds) ≡ true
ends_solid-append [] ds h = h
ends_solid-append (c ∷ []) [] h = absurd (cc)
ends_solid-append (c ∷ []) (d ∷ ds) h = h
ends_solid-append (c ∷ d ∷ cs) ds h = ends_solid-append (d ∷ cs) ds h

starts-trim_start :
    (cs : Chars) → is_empty (trim_start cs) ≡ false → starts_solid (trim_start cs) ≡ true
starts-trim_start [] h = absurd (cc)
starts-trim_start (c ∷ cs) h = ground (arith, starts-trim_start cs)

starts-before_trimmed :
    (c : ℕ) (cs : Chars) → is_whitespace c ≡ false → starts_solid (before_trimmed c cs) ≡ true
starts-before_trimmed c [] h = ground arith
starts-before_trimmed c (d ∷ cs) h = ground arith

starts-trim_end : (cs : Chars) → starts_solid cs ≡ true → starts_solid (trim_end cs) ≡ true
starts-trim_end [] h = absurd (cc)
starts-trim_end (c ∷ cs) h = starts-before_trimmed c (trim_end cs) (ground arith)

ends-before_trimmed :
    (c : ℕ) (cs : Chars)
    → (is_empty cs ≡ false → ends_solid cs ≡ true)
    → is_empty (before_trimmed c cs) ≡ false
    → ends_solid (before_trimmed c cs) ≡ true
ends-before_trimmed c [] f h = ground arith
ends-before_trimmed c (d ∷ cs) f h = f refl

ends-trim_end : (cs : Chars) → is_empty (trim_end cs) ≡ false → ends_solid (trim_end cs) ≡ true
ends-trim_end [] h = absurd (cc)
ends-trim_end (c ∷ cs) h = ends-before_trimmed c (trim_end cs) (ends-trim_end cs) h

pub ends-trim : (cs : Chars) → is_empty (trim cs) ≡ false → ends_solid (trim cs) ≡ true
ends-trim cs h = ends-trim_end (trim_start cs) h

empty-trim_end : (cs : Chars) → is_empty (trim_end cs) ≡ false → is_empty cs ≡ false
empty-trim_end [] h = absurd (cc)
empty-trim_end (c ∷ cs) h = refl

-- What is left of a text, if anything is, is solid at its start.
pub starts-trim : (cs : Chars) → is_empty (trim cs) ≡ false → starts_solid (trim cs) ≡ true
starts-trim cs h =
    starts-trim_end (trim_start cs) (starts-trim_start cs (empty-trim_end (trim_start cs) h))

-- Trimming takes out white space alone: what a test that white space fails keeps of a text stays.
module _ (solid : ℕ → Bool) (fails : (c : ℕ) → is_whitespace c ≡ true → solid c ≡ false) where
  filter-trim_start : (cs : Chars) → filter solid (trim_start cs) ≡ filter solid cs
  filter-trim_start [] = refl
  filter-trim_start (c ∷ cs) = ground (arith, fails c, filter-trim_start cs)

  filter-before_trimmed :
      (c : ℕ) (cs : Chars) → filter solid (before_trimmed c cs) ≡ filter solid (c ∷ cs)
  filter-before_trimmed c [] = ground (arith, fails c)
  filter-before_trimmed c (d ∷ cs) = refl

  filter-trim_end : (cs : Chars) → filter solid (trim_end cs) ≡ filter solid cs
  filter-trim_end [] = refl
  filter-trim_end (c ∷ cs) =
      filter-before_trimmed c (trim_end cs) ∙ ground (arith, filter-trim_end cs)

  pub filter-trim : (cs : Chars) → filter solid (trim cs) ≡ filter solid cs
  filter-trim cs = filter-trim_end (trim_start cs) ∙ filter-trim_start cs

length-trim_start : (cs : Chars) → length (trim_start cs) ≤ length cs
length-trim_start [] = omega arith
length-trim_start (c ∷ cs) = ground (arith, length-trim_start cs)

length-before_trimmed : (c : ℕ) (cs : Chars) → length (before_trimmed c cs) ≤ suc (length cs)
length-before_trimmed c [] = ground arith
length-before_trimmed c (d ∷ cs) = omega arith

length-trim_end : (cs : Chars) → length (trim_end cs) ≤ length cs
length-trim_end [] = omega arith
length-trim_end (c ∷ cs) = omega (arith, length-before_trimmed c (trim_end cs), length-trim_end cs)

pub length-trim : (cs : Chars) → length (trim cs) ≤ length cs
length-trim cs = omega (arith, length-trim_end (trim_start cs), length-trim_start cs)
