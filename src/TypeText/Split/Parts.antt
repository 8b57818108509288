-- ===== src/TypeText/Split/Parts.antt =====
-- What `split_refs` of split.rs gives: texts that were joined come apart again, and no text is lost.
use corsa_bind.Common.{
  ℕ, nat_eq, ◌≡◌, refl, ap, ◌∙◌, sym, arith, Bool, true, false, ◌&&◌, Option, some, none, List, [],
  ◌∷◌, ◌++◌, append-nil, append_assoc, concat, All,
}
use corsa_bind.TypeText.Chars.{Chars, is_empty}
use corsa_bind.TypeText.Split.{
  Nesting, no_nesting, at_top_level, step, is_delimiter, push_part, split_loop, split_refs,
}
use corsa_bind.TypeText.Split.Solid.{starts_solid, ends_solid, trim_solid, ends_solid-append}

-- The nesting behind a text.
abbrev pub steps : Nesting → Chars → Nesting
steps nesting [] = nesting
steps nesting (ch ∷ text) = steps (step nesting ch) text

-- The texts with a delimiter between each two.
abbrev pub join : ℕ → List Chars → Chars
join delimiter [] = []
join delimiter (part ∷ []) = part
join delimiter (part ∷ other ∷ parts) = part ++ delimiter ∷ join delimiter (other ∷ parts)

pub concat-append : (xs ys : List Chars) → concat (xs ++ ys) ≡ concat xs ++ concat ys
concat-append [] ys = refl
concat-append (x ∷ xs) ys =
    ap (λ r. x ++ r) (concat-append xs ys) ∙ sym (append_assoc x (concat xs) (concat ys))

abbrev is_some : List Chars → Bool
is_some [] = false
is_some (part ∷ parts) = true

starts-nonempty : (cs : Chars) → starts_solid cs ≡ true → is_empty cs ≡ false
starts-nonempty [] h = absurd (cc)
starts-nonempty (c ∷ cs) h = refl

starts-append : (cs ds : Chars) → starts_solid cs ≡ true → starts_solid (cs ++ ds) ≡ true
starts-append [] ds h = absurd (cc)
starts-append (c ∷ cs) ds h = h

ends-cons : (c : ℕ) (cs : Chars) → ends_solid cs ≡ true → ends_solid (c ∷ cs) ≡ true
ends-cons c [] h = absurd (cc)
ends-cons c (d ∷ cs) h = h

is_delimiter-primary :
    (primary : ℕ) (secondary : Option ℕ) → is_delimiter primary secondary primary ≡ true
is_delimiter-primary primary none = ground arith
is_delimiter-primary primary (some secondary) = ground arith

module _ (primary : ℕ) (secondary : Option ℕ) where
  abbrev pub cuts : Nesting → ℕ → Bool
  cuts nesting ch = at_top_level nesting && is_delimiter primary secondary ch

  -- No delimiter stands at the top level of a text.
  abbrev pub IsPlain : Nesting → Chars → Type 0
  IsPlain nesting [] = Unit
  IsPlain nesting (ch ∷ text) = (cuts nesting ch ≡ false) × IsPlain (step nesting ch) text

  -- A text that can be a part: it is solid at both ends, what it opens it closes, and no delimiter
  -- stands at its top level.
  pub record IsPart (part : Chars) : Type 0 where
    pub starts : starts_solid part ≡ true
    pub ends : ends_solid part ≡ true
    pub plain : IsPlain no_nesting part
    pub closes : steps no_nesting part ≡ no_nesting

  pub split_loop-keep :
      (nesting : Nesting) (part : Chars) (ch : ℕ) (text : Chars)
      → cuts nesting ch ≡ false
      → split_loop primary secondary nesting part (ch ∷ text)
        ≡ split_loop primary secondary (step nesting ch) (part ++ ch ∷ []) text
  unfolding split_loop
  split_loop-keep nesting part ch text h = rw (split_loop, h) refl

  pub split_loop-cut :
      (nesting : Nesting) (part : Chars) (ch : ℕ) (text : Chars)
      → cuts nesting ch ≡ true
      → split_loop primary secondary nesting part (ch ∷ text)
        ≡ push_part part ++ split_loop primary secondary nesting [] text
  unfolding split_loop
  split_loop-cut nesting part ch text h = rw (split_loop, h) refl

  split_loop-end : (part : Chars) → split_loop primary secondary no_nesting part [] ≡ push_part part
  unfolding split_loop
  split_loop-end part = refl

  is_delimiter_self : is_delimiter primary secondary primary ≡ true
  is_delimiter_self = is_delimiter-primary primary secondary

  split_loop-plain :
      (nesting : Nesting) (part text rest : Chars)
      → IsPlain nesting text
      → split_loop primary secondary nesting part (text ++ rest)
        ≡ split_loop primary secondary (steps nesting text) (part ++ text) rest
  split_loop-plain nesting part [] rest p =
      ap (λ q. split_loop primary secondary nesting q rest) (sym (append-nil part))
  split_loop-plain nesting part (ch ∷ text) rest p =
      split_loop-keep nesting part ch (text ++ rest) p.0
      ∙ split_loop-plain (step nesting ch) (part ++ ch ∷ []) text rest p.1
      ∙ ap (λ q. split_loop primary secondary (steps (step nesting ch) text) q rest)
          (append_assoc part (ch ∷ []) text)

  push_part-IsPart : (part : Chars) → IsPart part → push_part part ≡ part ∷ []
  push_part-IsPart part p =
      let same = trim_solid part p.starts p.ends in
      let there : is_empty part ≡ false = starts-nonempty part p.starts in rw (same, there) refl

  split_loop-join :
      (parts : List Chars)
      → All IsPart parts
      → is_delimiter primary secondary primary ≡ true
      → is_some parts ≡ true
      → split_loop primary secondary no_nesting [] (join primary parts) ≡ parts
  split_loop-join [] p d h = absurd (cc)
  split_loop-join (part ∷ []) p d h =
      ap (split_loop primary secondary no_nesting []) (sym (append-nil part))
      ∙ split_loop-plain no_nesting [] part [] p.0.plain
      ∙ ap (λ n. split_loop primary secondary n part []) p.0.closes
      ∙ split_loop-end part
      ∙ push_part-IsPart part p.0
  split_loop-join (part ∷ other ∷ parts) p d h =
      let rest = join primary (other ∷ parts) in
      let cut : cuts no_nesting primary ≡ true = d in
      split_loop-plain no_nesting [] part (primary ∷ rest) p.0.plain
      ∙ ap (λ n. split_loop primary secondary n part (primary ∷ rest)) p.0.closes
      ∙ split_loop-cut no_nesting part primary rest cut
      ∙ ap (λ r. r ++ split_loop primary secondary no_nesting [] rest) (push_part-IsPart part p.0)
      ∙ ap (◌∷◌ part) (split_loop-join (other ∷ parts) p.1 d refl)

  join-starts :
      (parts : List Chars)
      → All IsPart parts
      → is_some parts ≡ true
      → starts_solid (join primary parts) ≡ true
  join-starts [] p h = absurd (cc)
  join-starts (part ∷ []) p h = p.0.starts
  join-starts (part ∷ other ∷ parts) p h = starts-append part _ p.0.starts

  join-ends :
      (parts : List Chars)
      → All IsPart parts
      → is_some parts ≡ true
      → ends_solid (join primary parts) ≡ true
  join-ends [] p h = absurd (cc)
  join-ends (part ∷ []) p h = p.0.ends
  join-ends (part ∷ other ∷ parts) p h =
      ends_solid-append part _
        (ends-cons primary (join primary (other ∷ parts)) (join-ends (other ∷ parts) p.1 refl))

  -- Texts that can be parts, joined by a delimiter, come apart again into those texts.
  pub split_refs-IsPart :
      (part : Chars) (parts : List Chars)
      → All IsPart (part ∷ parts)
      → split_refs primary secondary (join primary (part ∷ parts)) ≡ part ∷ parts
  unfolding split_refs
  split_refs-IsPart part parts p =
      let text = join primary (part ∷ parts) in
      let starts = join-starts (part ∷ parts) p refl in
      let same = trim_solid text starts (join-ends (part ∷ parts) p refl) in
      let there : is_empty text ≡ false = starts-nonempty text starts in
      rw (same, there) (split_loop-join (part ∷ parts) p is_delimiter_self refl)
