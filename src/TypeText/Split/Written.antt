-- ===== src/TypeText/Split/Written.antt =====
-- Texts of types whose brackets and quotes are closed, as trees that know nothing of how split.rs counts:
-- what they are made of, and what `step` does at their characters.
pub mod Joined
use corsa_bind.Common.{
  ℕ, ◌+◌, ◌-◌, ◌==◌, nat_eq, nat_beq_iff, ◌≡◌, ◌≢◌, ◌⊎◌, refl, ap, ◌∙◌, sym, subst, arith, Bool,
  true, false, ◌&&◌, Option, some, none, List, [], ◌∷◌, ◌++◌, append-nil, append_assoc, All, map,
  elem, codes, inl, inr, Bool-cases, if◌then◌else◌,
}
use corsa_bind.TypeText.Chars.{Chars}
use corsa_bind.TypeText.Split.{Nesting, no_nesting, at_top_level, step, is_delimiter, split_refs}
use corsa_bind.TypeText.Split.Solid.{starts_solid, ends_solid}
use corsa_bind.TypeText.Split.Parts.{steps, join, cuts, IsPlain, IsPart, split_refs-IsPart}

pub data Bracket : Type 0 where
  angled squared round curly : Bracket

abbrev pub opening : Bracket → ℕ
opening angled = b'<'
opening squared = b'['
opening round = b'('
opening curly = b'{'

abbrev pub closing : Bracket → ℕ
closing angled = b'>'
closing squared = b']'
closing round = b')'
closing curly = b'}'

-- A text: characters that are no brackets and no quotes, groups in a pair of brackets, and literals in a
-- pair of quotes, in which anything but the quote stands.
pub data Written : Type 0 where
  blank : Written
  plain : ℕ → Written → Written
  group : Bracket → Written → Written → Written
  literal : ℕ → Chars → Written → Written

abbrev pub written : Written → Chars
written blank = []
written (plain c behind) = c ∷ written behind
written (group b inside behind) = opening b ∷ (written inside ++ closing b ∷ written behind)
written (literal quote inside behind) = quote ∷ (inside ++ quote ∷ written behind)

abbrev pub brackets_and_quotes : Chars
brackets_and_quotes = codes "<>[](){}'\"`"

abbrev pub quotes : Chars
quotes = codes "'\"`"

abbrev pub IsClosed : Written → Type 0
IsClosed blank = Unit
IsClosed (plain c behind) = (elem c brackets_and_quotes ≡ false) × IsClosed behind
IsClosed (group b inside behind) = IsClosed inside × IsClosed behind
IsClosed (literal quote inside behind) =
    (elem quote quotes ≡ true) × All (λ c. c ≢ quote) inside × IsClosed behind

module _ (primary : ℕ) (secondary : Option ℕ) where
  abbrev pub IsOther : ℕ → Type 0
  IsOther c = (c ≢ primary) × (secondary ≢ some c)

  -- Outside of groups and literals stands no delimiter.
  abbrev pub IsWhole : Written → Type 0
  IsWhole blank = Unit
  IsWhole (plain c behind) = IsOther c × IsWhole behind
  IsWhole (group b inside behind) = IsOther (opening b) × IsWhole behind
  IsWhole (literal quote inside behind) = IsOther quote × IsWhole behind

abbrev pub depths : ℕ → ℕ → ℕ → ℕ → Nesting
depths a s p b = record { angle = a; square = s; paren = p; brace = b; quote = none }

pub IsPlain-append :
    (primary : ℕ) (secondary : Option ℕ) (n : Nesting) (xs ys : Chars)
    → IsPlain primary secondary n xs
    → IsPlain primary secondary (steps n xs) ys
    → IsPlain primary secondary n (xs ++ ys)
IsPlain-append primary secondary n [] ys h g = g
IsPlain-append primary secondary n (x ∷ xs) ys h g =
    (h.0, IsPlain-append primary secondary (step n x) xs ys h.1 g)

pub steps-append : (n : Nesting) (xs ys : Chars) → steps n (xs ++ ys) ≡ steps (steps n xs) ys
steps-append n [] ys = refl
steps-append n (x ∷ xs) ys = steps-append (step n x) xs ys

pub step-plain :
    (a s p b c : ℕ) → elem c brackets_and_quotes ≡ false → step (depths a s p b) c ≡ depths a s p b
unfolding step
step-plain a s p b c h = ground arith

-- Behind an opening bracket, and behind the closing one.
unfoldable pub inside_of : Bracket → ℕ → ℕ → ℕ → ℕ → Nesting
inside_of angled a s p b = depths (a + 1) s p b
inside_of squared a s p b = depths a (s + 1) p b
inside_of round a s p b = depths a s (p + 1) b
inside_of curly a s p b = depths a s p (b + 1)

pub step-opening :
    (g : Bracket) (a s p b : ℕ) → step (depths a s p b) (opening g) ≡ inside_of g a s p b
unfolding step inside_of
step-opening angled a s p b = refl
step-opening squared a s p b = refl
step-opening round a s p b = refl
step-opening curly a s p b = refl

pub step-closing :
    (g : Bracket) (a s p b : ℕ) → step (inside_of g a s p b) (closing g) ≡ depths a s p b
unfolding step inside_of
step-closing angled a s p b = ap (λ x. depths x s p b) (let e : a + 1 - 1 ≡ a = omega arith in e)
step-closing squared a s p b = ap (λ x. depths a x p b) (let e : s + 1 - 1 ≡ s = omega arith in e)
step-closing round a s p b = ap (λ x. depths a s x b) (let e : p + 1 - 1 ≡ p = omega arith in e)
step-closing curly a s p b = ap (λ x. depths a s p x) (let e : b + 1 - 1 ≡ b = omega arith in e)

-- What holds below the top level holds inside of brackets.
pub inside_of-below :
    (P : Nesting → Type 0)
    → ((a s p b : ℕ) → at_top_level (depths a s p b) ≡ false → P (depths a s p b))
    → (g : Bracket) (a s p b : ℕ) → P (inside_of g a s p b)
unfolding inside_of
inside_of-below P h angled a s p b = h (a + 1) s p b ground arith
inside_of-below P h squared a s p b = h a (s + 1) p b ground arith
inside_of-below P h round a s p b = h a s (p + 1) b ground arith
inside_of-below P h curly a s p b = h a s p (b + 1) ground arith

pub is_delimiter-IsOther :
    (primary : ℕ) (secondary : Option ℕ) (c : ℕ)
    → IsOther primary secondary c
    → is_delimiter primary secondary c ≡ false
is_delimiter-IsOther primary none c (n, m) = elim (Bool-cases (c == primary)) [
  | inl h ↦ absurd (n ((nat_beq_iff c primary).0 h))
  | inr h ↦ h
]
is_delimiter-IsOther primary (some d) c (n, m) = elim (Bool-cases (c == primary)) [
  | inl h ↦ absurd (n ((nat_beq_iff c primary).0 h))
  | inr h ↦ elim (Bool-cases (d == c)) [
    | inl g ↦ absurd (m (ap some ((nat_beq_iff d c).0 g)))
    | inr g ↦ rw (h, g) refl
  ]
]

abbrev pub quoted : ℕ → ℕ → ℕ → ℕ → ℕ → Nesting
quoted q a s p b = record { angle = a; square = s; paren = p; brace = b; quote = some q }

pub step-quote : (q a s p b : ℕ) → elem q quotes ≡ true → step (depths a s p b) q ≡ quoted q a s p b
unfolding step
step-quote q a s p b h = ground arith

pub step-unquote : (q a s p b : ℕ) → step (quoted q a s p b) q ≡ depths a s p b
unfolding step
step-unquote q a s p b = rw ((nat_beq_iff q q).1 refl) refl

pub step-within : (q a s p b c : ℕ) → c ≢ q → step (quoted q a s p b) c ≡ quoted q a s p b
unfolding step
step-within q a s p b c n = elim (Bool-cases (c == q)) [
  | inl h ↦ absurd (n ((nat_beq_iff c q).0 h))
  | inr h ↦ rw h refl
]

pub quoted-below : (q a s p b : ℕ) → at_top_level (quoted q a s p b) ≡ false
quoted-below q a s p b = ground arith
