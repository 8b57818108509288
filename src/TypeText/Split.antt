-- ===== src/TypeText/Split.antt =====
-- src/core/corsa_core/src/utils/split.rs.
pub mod Solid
pub mod Parts
pub mod Written
pub mod Kept
use corsa_bind.Common.{
  ℕ, zero, suc, ◌+◌, ◌-◌, ◌<◌, ◌==◌, nat_eq, Bool, true, false, not, ◌&&◌, ◌||◌, Option, some, none,
  List, [], ◌∷◌, ◌++◌, length, take, slice, ltb, leb, if◌then◌else◌, ◌and_then◌,
}
use corsa_bind.TypeText.Chars.{Chars, trim, is_empty, has_suffix}

pub record Nesting : Type 0 where
  pub angle : ℕ
  pub square : ℕ
  pub paren : ℕ
  pub brace : ℕ
  pub quote : Option ℕ

-- `Nesting::default()`
abbrev pub no_nesting : Nesting
no_nesting = record { angle = 0; square = 0; paren = 0; brace = 0; quote = none }

abbrev pub is_unquoted : Option ℕ → Bool
is_unquoted none = true
is_unquoted (some q) = false

abbrev pub at_top_level : Nesting → Bool
at_top_level n =
    (n.angle == 0)
    && ((n.square == 0) && ((n.paren == 0) && ((n.brace == 0) && is_unquoted n.quote)))

abbrev pub is_quote : ℕ → Bool
is_quote ch = (ch == b'\'') || ((ch == b'"') || (ch == b'`'))

-- A character outside of quotes. A closing one with nothing to closer changes nothing, as `-` on
-- natural numbers stops at 0.
abbrev pub step_unquoted : Nesting → ℕ → Nesting
step_unquoted n ch =
    if is_quote ch
    then record n { quote = some ch }
    else if ch == b'<'
    then record n { angle = n.angle + 1 }
    else if ch == b'>'
    then record n { angle = n.angle - 1 }
    else if ch == b'['
    then record n { square = n.square + 1 }
    else if ch == b']'
    then record n { square = n.square - 1 }
    else if ch == b'('
    then record n { paren = n.paren + 1 }
    else if ch == b')'
    then record n { paren = n.paren - 1 }
    else if ch == b'{'
    then record n { brace = n.brace + 1 }
    else if ch == b'}'
    then record n { brace = n.brace - 1 }
    else n

abbrev pub step_quoted : Option ℕ → Nesting → ℕ → Nesting
step_quoted none n ch = step_unquoted n ch
step_quoted (some active_quote) n ch = if ch == active_quote then record n { quote = none } else n

unfoldable pub step : Nesting → ℕ → Nesting
step n ch = step_quoted n.quote n ch

abbrev pub is_delimiter : ℕ → Option ℕ → ℕ → Bool
is_delimiter primary none ch = ch == primary
is_delimiter primary (some secondary) ch = (ch == primary) || (secondary == ch)

-- The part that `push_part` pushes, if any.
abbrev pub push_part : Chars → List Chars
push_part part = if is_empty (trim part) then [] else trim part ∷ []

module _ (primary : ℕ) (secondary : Option ℕ) where
  -- The loop of `split_refs`; `part` is the text from `start` on, up to the character that is next.
  unfoldable pub split_loop : Nesting → Chars → Chars → List Chars
  split_loop nesting part [] = push_part part
  split_loop nesting part (ch ∷ text) =
      elim (at_top_level nesting && is_delimiter primary secondary ch) [
        | true ↦ push_part part ++ split_loop nesting [] text
        | false ↦ split_loop (step nesting ch) (part ++ ch ∷ []) text
      ]

  unfoldable pub split_refs : Chars → List Chars
  unfolding split_loop
  split_refs text = if is_empty (trim text) then [] else split_loop no_nesting [] (trim text)

abbrev pub split_top_level_owned : Chars → ℕ → List Chars
split_top_level_owned text delimiter = split_refs delimiter none text

abbrev pub split_type_text_owned : Chars → List Chars
split_type_text_owned text = split_refs b'|' (some b'&') text

-- `(parts.len() > 1).then_some(parts)`
abbrev pub if_several : List Chars → Option (List Chars)
if_several (part ∷ other ∷ parts) = some (part ∷ other ∷ parts)
if_several _ = none

unfoldable pub split_top_level_once : Chars → ℕ → Option (List Chars)
split_top_level_once text delimiter = if_several (split_refs delimiter none text)

abbrev pub split_comma_refs : Chars → List Chars
split_comma_refs text = split_refs b',' none text

-- The loop of `split_generic`: the nesting behind the text, and where its first angle bracket at the
-- top level is.
unfoldable pub generic_loop : Nesting → Option ℕ → ℕ → Chars → Nesting × Option ℕ
generic_loop nesting start index [] = (nesting, start)
generic_loop nesting (some start) index (ch ∷ text) =
    generic_loop (step nesting ch) (some start) (index + 1) text
generic_loop nesting none index (ch ∷ text) =
    generic_loop (step nesting ch)
      (if (ch == b'<') && at_top_level nesting then some index else none) (index + 1) text

abbrev pub split_at_bracket : Chars → ℕ → Option (Chars × Chars)
split_at_bracket text start =
    let base = trim (take start text) in
    if is_empty base then none else some (base, slice text (start + 1) (length text - 1))

abbrev pub generic_parts : Chars → Nesting × Option ℕ → Option (Chars × Chars)
generic_parts text (nesting, none) = none
generic_parts text (nesting, some start) =
    if not (nesting.angle == 0) || ((start == 0) || not (has_suffix ">" text))
    then none
    else split_at_bracket text start

unfoldable pub split_generic : Chars → Option (Chars × Chars)
split_generic text = generic_parts (trim text) (generic_loop no_nesting none 0 (trim text))

-- The loop of `is_wrapped_by`.
unfoldable pub wrapped_loop : ℕ → ℕ → ℕ → Option ℕ → Chars → Bool
wrapped_loop opener closer depth quote [] = depth == 0
wrapped_loop opener closer depth (some active_quote) (ch ∷ text) =
    wrapped_loop opener closer depth (if ch == active_quote then none else some active_quote) text
wrapped_loop opener closer depth none (ch ∷ text) = elim (is_quote ch) [
  | true ↦ wrapped_loop opener closer depth (some ch) text
  | false ↦ elim (ch == opener) [
    | true ↦ wrapped_loop opener closer (depth + 1) none text
    | false ↦ elim (ch == closer) [
      | false ↦ wrapped_loop opener closer depth none text
      | true ↦ elim ((depth == 0) || ((depth - 1 == 0) && not (is_empty text))) [
        | true ↦ false
        | false ↦ wrapped_loop opener closer (depth - 1) none text
      ]
    ]
  ]
]

abbrev pub last_is : ℕ → Chars → Bool
last_is c [] = false
last_is c (d ∷ []) = d == c
last_is c (d ∷ e ∷ text) = last_is c (e ∷ text)

abbrev pub first_is : ℕ → Chars → Bool
first_is c [] = false
first_is c (d ∷ text) = d == c

unfoldable pub is_wrapped_by : Chars → ℕ → ℕ → Bool
is_wrapped_by text opener closer =
    first_is opener text && (last_is closer text && wrapped_loop opener closer 0 none text)

-- `&text[1..text.len() - 1]` of a text whose first and last characters are one byte each.
abbrev pub inside : Chars → Chars
inside text = slice text 1 (length text - 1)

-- Each pair of parentheses takes one unit of fuel.
unfoldable pub strip_loop : ℕ → Chars → Option Chars
strip_loop zero current = none
strip_loop (suc fuel) current = elim (is_wrapped_by current b'(' b')') [
  | true ↦ strip_loop fuel (trim (inside current))
  | false ↦ some current
]

unfoldable pub strip_wrapping_parens : Chars → Option Chars
strip_wrapping_parens text = strip_loop (suc (length (trim text))) (trim text)
