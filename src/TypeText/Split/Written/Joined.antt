-- ===== src/TypeText/Split/Written/Joined.antt =====
-- Texts whose brackets and quotes are closed, joined by a delimiter, and what `split_refs` of split.rs
-- makes of them.
use corsa_bind.Common.{
  ℕ, nat_eq, ◌≡◌, ◌≢◌, ◌⊎◌, refl, ap, ◌∙◌, sym, subst, true, false, Option, List, [], ◌∷◌, ◌++◌,
  All, map, inl, inr, Bool-cases,
}
use corsa_bind.TypeText.Chars.{Chars}
use corsa_bind.TypeText.Split.{Nesting, at_top_level, step, split_refs}
use corsa_bind.TypeText.Split.Solid.{starts_solid, ends_solid}
use corsa_bind.TypeText.Split.Parts.{steps, join, cuts, IsPlain, IsPart, split_refs-IsPart}
use corsa_bind.TypeText.Split.Written.{
  opening, closing, Written, blank, plain, group, literal, written, IsClosed, IsOther, IsWhole,
  depths, quoted, inside_of, IsPlain-append, steps-append, step-plain, step-opening, step-closing,
  inside_of-below, is_delimiter-IsOther, step-quote, step-unquote, step-within, quoted-below,
}

module _ (primary : ℕ) (secondary : Option ℕ) where
  -- A text is not cut, and leaves the nesting that it found.
  record Passes (n : Nesting) (text : Chars) : Type 0 where
    uncut : IsPlain primary secondary n text
    back : steps n text ≡ n

  cuts-below : (n : Nesting) (c : ℕ) → at_top_level n ≡ false → cuts primary secondary n c ≡ false
  cuts-below n c h = rw h refl

  cuts-first :
      {W : Type 0} (n : Nesting) (c : ℕ)
      → (at_top_level n ≡ false) ⊎ (IsOther primary secondary c × W)
      → (cuts primary secondary n c ≡ false) × ((at_top_level n ≡ false) ⊎ W)
  cuts-first n c (inl h) = (cuts-below n c h, inl h)
  cuts-first n c (inr (o, w)) = elim (Bool-cases (at_top_level n)) [
    | inl t ↦ (rw t (is_delimiter-IsOther primary secondary c o), inr w)
    | inr f ↦ (cuts-below n c f, inl f)
  ]

  Passes-cons :
      (n : Nesting) (c : ℕ) (text : Chars)
      → cuts primary secondary n c ≡ false
      → step n c ≡ n
      → Passes n text
      → Passes n (c ∷ text)
  Passes-cons n c text u e p = record {
    uncut = (u, subst (λ m. IsPlain primary secondary m text) (sym e) p.uncut);
    back = ap (λ m. steps m text) e ∙ p.back;
  }

  Passes-append : (n : Nesting) (xs ys : Chars) → Passes n xs → Passes n ys → Passes n (xs ++ ys)
  Passes-append n xs ys p q = record {
    uncut =
        IsPlain-append primary secondary n xs ys p.uncut
          (subst (λ m. IsPlain primary secondary m ys) (sym p.back) q.uncut);
    back = steps-append n xs ys ∙ ap (λ m. steps m ys) p.back ∙ q.back;
  }

  -- An opening character, what stands inside, its closing character, and what is behind.
  Passes-pair :
      (n m : Nesting) (first last : ℕ) (inside behind : Chars)
      → cuts primary secondary n first ≡ false
      → step n first ≡ m
      → Passes m inside
      → cuts primary secondary m last ≡ false
      → step m last ≡ n
      → Passes n behind
      → Passes n (first ∷ (inside ++ last ∷ behind))
  Passes-pair n m first last inside behind u e p v f q =
      let rest = last ∷ behind in
      let last_uncut : IsPlain primary secondary m rest =
        (v, subst (λ k. IsPlain primary secondary k behind) (sym f) q.uncut) in
      let within : IsPlain primary secondary m (inside ++ rest) =
        IsPlain-append primary secondary m inside rest p.uncut
          (subst (λ k. IsPlain primary secondary k rest) (sym p.back) last_uncut) in
      record {
        uncut = (u, subst (λ k. IsPlain primary secondary k (inside ++ rest)) (sym e) within);
        back =
            ap (λ k. steps k (inside ++ rest)) e
            ∙ steps-append m inside rest
            ∙ ap (λ k. steps k rest) p.back
            ∙ ap (λ k. steps k behind) f
            ∙ q.back;
      }

  literal-Passes :
      (q a s p b : ℕ) (inside : Chars) → All (λ c. c ≢ q) inside → Passes (quoted q a s p b) inside
  literal-Passes q a s p b [] h = record { uncut = tt; back = refl }
  literal-Passes q a s p b (c ∷ inside) h =
      Passes-cons (quoted q a s p b) c inside
        (cuts-below (quoted q a s p b) c (quoted-below q a s p b)) (step-within q a s p b c h.0)
        (literal-Passes q a s p b inside h.1)

  written-Passes :
      (t : Written) (a s p b : ℕ)
      → IsClosed t
      → (at_top_level (depths a s p b) ≡ false) ⊎ IsWhole primary secondary t
      → Passes (depths a s p b) (written t)
  written-Passes blank a s p b h w = record { uncut = tt; back = refl }
  written-Passes (plain c behind) a s p b h w =
      let (u, w') = cuts-first (depths a s p b) c w in
      Passes-cons (depths a s p b) c (written behind) u (step-plain a s p b c h.0)
        (written-Passes behind a s p b h.1 w')
  written-Passes (group g inside behind) a s p b h w =
      let (u, w') = cuts-first (depths a s p b) (opening g) w in
      Passes-pair (depths a s p b) (inside_of g a s p b) (opening g) (closing g) (written inside)
        (written behind) u (step-opening g a s p b)
        (inside_of-below (λ m. Passes m (written inside))
          (λ a' s' p' b' below. written-Passes inside a' s' p' b' h.0 (inl below)) g a s p b)
        (inside_of-below (λ m. cuts primary secondary m (closing g) ≡ false)
          (λ a' s' p' b' below. cuts-below (depths a' s' p' b') (closing g) below) g a s p b)
        (step-closing g a s p b) (written-Passes behind a s p b h.1 w')
  written-Passes (literal q inside behind) a s p b h w =
      let (u, w') = cuts-first (depths a s p b) q w in
      Passes-pair (depths a s p b) (quoted q a s p b) q q inside (written behind) u
        (step-quote q a s p b h.0) (literal-Passes q a s p b inside h.1)
        (cuts-below (quoted q a s p b) q (quoted-below q a s p b)) (step-unquote q a s p b)
        (written-Passes behind a s p b h.2 w')

  -- A text that can be a part: its brackets and quotes are closed, no delimiter stands outside of them,
  -- and it begins and ends with no white space.
  pub record IsWrittenPart (t : Written) : Type 0 where
    pub closed : IsClosed t
    pub whole : IsWhole primary secondary t
    pub starts : starts_solid (written t) ≡ true
    pub ends : ends_solid (written t) ≡ true

  written-IsPart : (t : Written) → IsWrittenPart t → IsPart primary secondary (written t)
  written-IsPart t h =
      let p = written-Passes t 0 0 0 0 h.closed (inr h.whole) in
      record { starts = h.starts; ends = h.ends; plain = p.uncut; closes = p.back }

  parts-IsPart :
      (ts : List Written) → All IsWrittenPart ts → All (IsPart primary secondary) (map written ts)
  parts-IsPart [] h = tt
  parts-IsPart (t ∷ ts) h = (written-IsPart t h.0, parts-IsPart ts h.1)

  -- Texts that are joined by the primary delimiter come apart again into those texts. A text is made of
  -- groups in a pair of brackets of one kind, of literals in a pair of quotes, and of other characters; no
  -- delimiter stands outside of its groups and literals, and no white space at its ends. A bracket that is
  -- no pair's, such as the one of an arrow, is not in these texts.
  pub split_refs-join :
      (t : Written) (ts : List Written)
      → All IsWrittenPart (t ∷ ts)
      → split_refs primary secondary (join primary (map written (t ∷ ts))) ≡ map written (t ∷ ts)
  split_refs-join t ts h =
      split_refs-IsPart primary secondary (written t) (map written ts) (parts-IsPart (t ∷ ts) h)
