-- ===== src/TypeText/Parse/Shorter.antt =====
-- The texts inside of a type's text are shorter than it is, for unsafe_flow.rs.
use corsa_bind.Common.{
  ℕ, zero, suc, ◌+◌, ◌-◌, ◌≤◌, ◌<◌, ◌==◌, nat_eq, ◌≡◌, refl, ap, subst, arith, Bool, true, false,
  not, ◌||◌, Bool-cases, inl, inr, Option, some, none, Option-cases, List, [], ◌∷◌, concat, length,
  length-append, length-drop, take, slice, if◌then◌else◌, All, All-mono, codes,
}
use mathlib.Core.Option.{some-injective}
use corsa_bind.TypeText.Chars.{
  Chars, trim, is_empty, chars_beq, chars_beq_iff, ends_with, has_suffix,
}
use corsa_bind.TypeText.Split.{
  Nesting, no_nesting, first_is, inside, is_wrapped_by, strip_loop, strip_wrapping_parens,
  split_refs, split_comma_refs, if_several, split_top_level_once, generic_loop, generic_parts,
  split_at_bracket, split_generic,
}
use corsa_bind.TypeText.Split.Solid.{length-trim}
use corsa_bind.TypeText.Split.Kept.{IsSolid, split_refs-kept, split_refs-length}
use corsa_bind.TypeText.Parse.{
  Shape, union_of, intersection_of, array_of, tuple_of, generic_of, atom_of, generic_or_atom,
  suffixed_shape, shape_of,
}

length-take_le : (n : ℕ) (cs : Chars) → length (take n cs) ≤ n
length-take_le zero cs = omega arith
length-take_le (suc n) [] = omega arith
length-take_le (suc n) (c ∷ cs) = omega (arith, length-take_le n cs)

length-slice : (cs : Chars) (lo hi : ℕ) → length (slice cs lo hi) ≤ hi - lo
length-slice cs lo hi = omega (arith, length-drop lo (take hi cs), length-take_le hi cs)

first_is-length : (c : ℕ) (cs : Chars) → first_is c cs ≡ true → 1 ≤ length cs
first_is-length c [] h = absurd (cc)
first_is-length c (d ∷ cs) h = omega arith

wrapped-length :
    (opener closer : ℕ) (text : Chars) → is_wrapped_by text opener closer ≡ true → 1 ≤ length text
unfolding is_wrapped_by
wrapped-length opener closer text h = first_is-length opener text (ground arith)

-- The text that is left has no parentheses around it any more.
pub strip_loop-ends :
    (fuel : ℕ) (text : Chars)
    → length text < fuel
    → (body : Chars) × (strip_loop fuel text ≡ some body)
      × (length body ≤ length text)
      × (is_wrapped_by body b'(' b')' ≡ false)
unfolding strip_loop
strip_loop-ends zero text lt = absurd (omega arith)
strip_loop-ends (suc fuel) text lt = elim (Bool-cases (is_wrapped_by text b'(' b')')) [
  | inl h ↦
      let nonempty = wrapped-length b'(' b')' text h in
      let shorter = length-slice text 1 (length text - 1) in
      let (body, e, le, n) =
        strip_loop-ends fuel (trim (inside text)) (omega (arith, length-trim (inside text))) in
      (body, rw (strip_loop, h) e, omega (arith, length-trim (inside text)), n)
  | inr h ↦ (text, rw (strip_loop, h) refl, omega arith, h)
]

-- Stripping ends, and leaves a text that is no longer than it was and has no parentheses around it.
pub strip_wrapping_parens-ends :
    (text : Chars)
    → (body : Chars) × (strip_wrapping_parens text ≡ some body)
      × (length body ≤ length text)
      × (is_wrapped_by body b'(' b')' ≡ false)
unfolding strip_wrapping_parens
strip_wrapping_parens-ends text =
    let (body, e, le, n) = strip_loop-ends (suc (length (trim text))) (trim text) (omega arith) in
    (body, e, omega (arith, length-trim text), n)

-- The texts in a shape are shorter than `n`.
abbrev pub ShorterThan : ℕ → Chars → Type 0
ShorterThan n part = length part < n

abbrev pub IsShorter : ℕ → Shape → Type 0
IsShorter n (union_of parts) = All (ShorterThan n) parts
IsShorter n (intersection_of parts) = All (ShorterThan n) parts
IsShorter n (array_of item) = length item < n
IsShorter n (tuple_of parts) = All (ShorterThan n) parts
IsShorter n (generic_of base args) = All (ShorterThan n) args
IsShorter n (atom_of text) = Unit

solid-length : (part : Chars) → IsSolid part → 1 ≤ length part
solid-length [] h = absurd (cc)
solid-length (c ∷ part) h = omega arith

parts-le : (parts : List Chars) → All (λ p. length p ≤ length (concat parts)) parts
parts-le [] = tt
parts-le (part ∷ parts) = (
  omega (arith, length-append part (concat parts)),
  All-mono _ _ (λ p le. omega (arith, length-append part (concat parts))) parts (parts-le parts),
)

several-shorter :
    (parts : List Chars) (n : ℕ)
    → All IsSolid parts
    → length (concat parts) ≤ n
    → (several : List Chars) → if_several parts ≡ some several
    → All (ShorterThan n) several
several-shorter [] n solid le several h = absurd (cc)
several-shorter (part ∷ []) n solid le several h = absurd (cc)
several-shorter (part ∷ other ∷ parts) n solid le several h =
    let same : part ∷ other ∷ parts ≡ several = some-injective _ _ h in
    let rest = concat (other ∷ parts) in
    let total = length-append part rest in
    let behind = length-append other (concat parts) in
    let a = solid-length part solid.0 in
    let b = solid-length other solid.1.0 in
    subst (All (ShorterThan n)) same (
      omega arith,
      All-mono _ _ (λ p q. omega (arith, q)) (other ∷ parts) (parts-le (other ∷ parts)),
    )

once-shorter :
    (delimiter : ℕ) (text : Chars) (several : List Chars)
    → split_top_level_once text delimiter ≡ some several
    → All (ShorterThan (length text)) several
unfolding split_top_level_once
once-shorter delimiter text several h =
    several-shorter (split_refs delimiter none text) (length text)
      (split_refs-kept delimiter none text).0 (split_refs-length delimiter none text) several h

commas-shorter :
    (text : Chars) (n : ℕ) → length text < n → All (ShorterThan n) (split_comma_refs text)
commas-shorter text n lt =
    let le = split_refs-length b',' none text in
    All-mono _ _ (λ p q. omega (arith, q, le)) (split_comma_refs text)
      (parts-le (split_comma_refs text))

ends_with-length : (suffix cs : Chars) → ends_with suffix cs ≡ true → length suffix ≤ length cs
ends_with-length [] cs h = omega arith
ends_with-length (s ∷ suffix) [] h = absurd (cc)
ends_with-length (s ∷ suffix) (c ∷ cs) h = elim (Bool-cases (chars_beq (s ∷ suffix) (c ∷ cs))) [
  | inl e ↦
      let same : s ∷ suffix ≡ c ∷ cs = (chars_beq_iff (s ∷ suffix) (c ∷ cs)).0 e in
      let long : length (s ∷ suffix) ≡ length (c ∷ cs) = ap length same in omega arith
  | inr e ↦ omega (arith, ends_with-length (s ∷ suffix) cs (ground arith))
]

if-none {ℓ} :
    {A : Type ℓ} (b : Bool) (o : Option A) (a : A)
    → (if b then none else o) ≡ some a
    → (b ≡ false) × (o ≡ some a)
if-none true o a h = absurd (cc)
if-none false o a h = (refl, h)

generic_parts-shorter :
    (text : Chars) (found : Nesting × Option ℕ) (base args : Chars)
    → generic_parts text found ≡ some (base, args)
    → length args < length text
generic_parts-shorter text (nesting, none) base args h = absurd (cc)
generic_parts-shorter text (nesting, some start) base args h =
    let (guard, split) =
      if-none (not (nesting.angle == 0) || ((start == 0) || not (has_suffix ">" text)))
        (split_at_bracket text start) (base, args) h in
    let front : Chars = trim (take start text) in
    let inner : Chars = slice text (start + 1) (length text - 1) in
    let (named, cut) = if-none (is_empty front) (some (front, inner)) (base, args) split in
    let pairs : (front, inner) ≡ (base, args) = some-injective _ _ cut in
    let args_are : inner ≡ args = ap (λ p. p.1) pairs in
    let suffixed : has_suffix ">" text ≡ true = ground (arith, guard) in
    let long = ends_with-length (codes ">") text suffixed in
    subst (λ r. length r < length text) args_are
      (omega (arith, length-slice text (start + 1) (length text - 1)))

split_generic-shorter :
    (text base args : Chars) → split_generic text ≡ some (base, args) → length args < length text
unfolding split_generic
split_generic-shorter text base args h = omega (
  arith,
  generic_parts-shorter (trim text) (generic_loop no_nesting none 0 (trim text)) base args h,
  length-trim text,
)

generic_or_atom-IsShorter :
    (text : Chars) → IsShorter (length text) (generic_or_atom text (split_generic text))
generic_or_atom-IsShorter text = elim (Option-cases (split_generic text)) [
  | inl n ↦ rw n tt
  | inr p ↦
      let (base, args) = p.0 in
      rw p.1 (commas-shorter args (length text) (split_generic-shorter text base args p.1))
]

suffixed_shape-IsShorter : (text : Chars) → IsShorter (length text) (suffixed_shape text)
suffixed_shape-IsShorter text = elim (Bool-cases (has_suffix "[]" text)) [
  | inl h ↦
      let long = ends_with-length (codes "[]") text h in
      rw h (omega (arith, length-take_le (length text - 2) text))
  | inr h ↦ elim (Bool-cases (is_wrapped_by text b'[' b']')) [
    | inl w ↦
        let long = wrapped-length b'[' b']' text w in
        rw (h, w)
          (commas-shorter (inside text) (length text)
            (omega (arith, length-slice text 1 (length text - 1))))
    | inr w ↦ rw (h, w) (generic_or_atom-IsShorter text)
  ]
]

pub shape_of-IsShorter : (text : Chars) → IsShorter (length text) (shape_of text)
unfolding shape_of
shape_of-IsShorter text = elim (Option-cases (split_top_level_once text b'|')) [
  | inl n ↦ elim (Option-cases (split_top_level_once text b'&')) [
    | inl m ↦ rw (n, m) (suffixed_shape-IsShorter text)
    | inr p ↦ rw (n, p.1) (once-shorter b'&' text p.0 p.1)
  ]
  | inr p ↦ rw p.1 (once-shorter b'|' text p.0 p.1)
]
