-- ===== src/TypeText/Split/Kept.antt =====
-- What `split_refs` of split.rs keeps of a text, and how long its parts are.
use corsa_bind.Common.{
  ℕ, ◌+◌, ◌≤◌, nat_eq, ◌≡◌, refl, ap, ◌∙◌, sym, subst, arith, Bool, true, false, not, ◌&&◌,
  Bool-cases, inl, inr, Option, [], ◌∷◌, ◌++◌, append-nil, append_assoc, concat, length,
  length-append, filter, filter-append, All, All-append,
}
use corsa_bind.TypeText.Chars.{Chars, is_whitespace, trim, is_empty}
use corsa_bind.TypeText.Split.{
  Nesting, no_nesting, step, is_delimiter, push_part, split_loop, split_refs,
}
use corsa_bind.TypeText.Split.Solid.{
  starts_solid, ends_solid, starts-trim, ends-trim, filter-trim, length-trim,
}
use corsa_bind.TypeText.Split.Parts.{concat-append, cuts, split_loop-keep, split_loop-cut}

pub empty-eq : (cs : Chars) → is_empty cs ≡ true → cs ≡ []
empty-eq [] h = refl
empty-eq (c ∷ cs) h = absurd (cc)

pub nonempty-length : (cs : Chars) → is_empty cs ≡ false → 1 ≤ length cs
nonempty-length [] h = absurd (cc)
nonempty-length (c ∷ cs) h = omega arith

-- A part that is given: it is not blank, and solid at both ends.
abbrev pub IsSolid : Chars → Type 0
IsSolid part = (starts_solid part ≡ true) × (ends_solid part ≡ true)

module _ (primary : ℕ) (secondary : Option ℕ) where
  -- Neither white space nor a delimiter.
  abbrev pub is_kept : ℕ → Bool
  is_kept c = not (is_whitespace c) && not (is_delimiter primary secondary c)

  push_part-kept : (part : Chars) → filter is_kept (concat (push_part part)) ≡ filter is_kept part
  push_part-kept part =
      let kept = filter-trim is_kept (λ c h. ground arith) part in
      elim (Bool-cases (is_empty (trim part))) [
        | inl h ↦ rw h (ap (filter is_kept) (sym (empty-eq (trim part) h)) ∙ kept)
        | inr h ↦ rw h (ap (filter is_kept) (append-nil (trim part)) ∙ kept)
      ]

  split_loop-kept :
      (nesting : Nesting) (part text : Chars)
      → filter is_kept (concat (split_loop primary secondary nesting part text))
        ≡ filter is_kept (part ++ text)
  unfolding split_loop
  split_loop-kept nesting part [] =
      push_part-kept part ∙ ap (filter is_kept) (sym (append-nil part))
  split_loop-kept nesting part (ch ∷ text) = elim (Bool-cases (cuts primary secondary nesting ch)) [
    | inl h ↦
        let rest = split_loop primary secondary nesting [] text in
        let gone : is_kept ch ≡ false = ground arith in
        let skip : filter is_kept (ch ∷ text) ≡ filter is_kept text = rw gone refl in
        ap (λ r. filter is_kept (concat r))
          (split_loop-cut primary secondary nesting part ch text h)
        ∙ ap (filter is_kept) (concat-append (push_part part) rest)
        ∙ filter-append is_kept (concat (push_part part)) (concat rest)
        ∙ ap (λ r. r ++ filter is_kept (concat rest)) (push_part-kept part)
        ∙ ap (λ r. filter is_kept part ++ r) (split_loop-kept nesting [] text ∙ sym skip)
        ∙ sym (filter-append is_kept part (ch ∷ text))
    | inr h ↦
        ap (λ r. filter is_kept (concat r))
          (split_loop-keep primary secondary nesting part ch text h)
        ∙ split_loop-kept (step nesting ch) (part ++ ch ∷ []) text
        ∙ ap (filter is_kept) (append_assoc part (ch ∷ []) text)
  ]

  push_part-IsSolid : (part : Chars) → All IsSolid (push_part part)
  push_part-IsSolid part = elim (Bool-cases (is_empty (trim part))) [
    | inl h ↦ rw h tt
    | inr h ↦ rw h ((starts-trim part h, ends-trim part h), tt)
  ]

  push_part-length : (part : Chars) → length (concat (push_part part)) ≤ length part
  push_part-length part = elim (Bool-cases (is_empty (trim part))) [
    | inl h ↦ rw h (omega arith)
    | inr h ↦ rw (h, append-nil (trim part)) (length-trim part)
  ]

  split_loop-IsSolid :
      (nesting : Nesting) (part text : Chars)
      → All IsSolid (split_loop primary secondary nesting part text)
  unfolding split_loop
  split_loop-IsSolid nesting part [] = push_part-IsSolid part
  split_loop-IsSolid nesting part (ch ∷ text) =
      elim (Bool-cases (cuts primary secondary nesting ch)) [
        | inl h ↦
            subst (All IsSolid) (sym (split_loop-cut primary secondary nesting part ch text h)) (
              All-append IsSolid (push_part part) _ (push_part-IsSolid part)
                (split_loop-IsSolid nesting [] text))
        | inr h ↦
            subst (All IsSolid) (sym (split_loop-keep primary secondary nesting part ch text h))
              (split_loop-IsSolid (step nesting ch) (part ++ ch ∷ []) text)
      ]

  split_loop-length :
      (nesting : Nesting) (part text : Chars)
      → length (concat (split_loop primary secondary nesting part text)) ≤ length part + length text
  unfolding split_loop
  split_loop-length nesting part [] = omega (arith, push_part-length part)
  split_loop-length nesting part (ch ∷ text) =
      elim (Bool-cases (cuts primary secondary nesting ch)) [
        | inl h ↦
            let rest = split_loop primary secondary nesting [] text in
            rw
              (
                split_loop-cut primary secondary nesting part ch text h,
                concat-append (push_part part) rest,
              )
              (omega (
                arith,
                length-append (concat (push_part part)) (concat rest),
                push_part-length part,
                split_loop-length nesting [] text,
              ))
        | inr h ↦ rw (split_loop-keep primary secondary nesting part ch text h) (
            omega (
              arith,
              length-append part (ch ∷ []),
              split_loop-length (step nesting ch) (part ++ ch ∷ []) text,
            ))
      ]

  -- Whatever the text, its parts are not blank and are solid at both ends, and no character is lost
  -- but white space and delimiters: without those, the parts in a row are the text.
  pub split_refs-kept :
      (text : Chars)
      → All IsSolid (split_refs primary secondary text)
        × (filter is_kept (concat (split_refs primary secondary text)) ≡ filter is_kept text)
  unfolding split_refs
  split_refs-kept text =
      let kept = filter-trim is_kept (λ c h. ground arith) text in
      elim (Bool-cases (is_empty (trim text))) [
        | inl h ↦ rw h (tt, ap (filter is_kept) (sym (empty-eq (trim text) h)) ∙ kept)
        | inr h ↦ rw h (
          split_loop-IsSolid no_nesting [] (trim text),
          split_loop-kept no_nesting [] (trim text) ∙ kept,
        )
      ]

  pub split_refs-length :
      (text : Chars) → length (concat (split_refs primary secondary text)) ≤ length text
  unfolding split_refs
  split_refs-length text = elim (Bool-cases (is_empty (trim text))) [
    | inl h ↦ rw h (omega arith)
    | inr h ↦ rw h (omega (arith, split_loop-length no_nesting [] (trim text), length-trim text))
  ]
