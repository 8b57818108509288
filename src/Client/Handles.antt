-- ===== src/Client/Handles.antt =====
-- src/core/corsa_client/src/api/handles.rs: the two shapes of a node handle. A handle is the list of its
-- code points.
pub mod Pieces
pub mod Paths
pub mod Tests
use corsa_bind.Common.{
  ℕ, zero, suc, ◌^◌, ◌==◌, nat_eq, Bool, true, false, not, ◌&&◌, ◌||◌, Option, some, none, List, [],
  ◌∷◌, ◌++◌, ltb, if◌then◌else◌, ◌and_then◌,
}
use corsa_bind.TypeText.Chars.{Chars, is_empty}
use corsa_bind.TypeText.Kinds.{is_digits, value_of}

-- A character before the first of some parts.
abbrev pub prepend : ℕ → List Chars → List Chars
prepend c [] = (c ∷ []) ∷ []
prepend c (part ∷ parts) = (c ∷ part) ∷ parts

-- `split('.')`
unfoldable pub split_dots : Chars → List Chars
split_dots [] = [] ∷ []
split_dots (c ∷ text) = if c == b'.' then [] ∷ split_dots text else prepend c (split_dots text)

-- `splitn(n, '.')`: the last of n parts is what is left, dots and all.
unfoldable pub splitn_dots : ℕ → Chars → List Chars
splitn_dots zero text = []
splitn_dots (suc zero) text = text ∷ []
splitn_dots (suc (suc n)) [] = [] ∷ []
splitn_dots (suc (suc n)) (c ∷ text) = elim (c == b'.') [
  | true ↦ [] ∷ splitn_dots (suc n) text
  | false ↦ prepend c (splitn_dots (suc (suc n)) text)
]

-- `join(".")`
abbrev pub join_dots : List Chars → Chars
join_dots [] = []
join_dots (part ∷ []) = part
join_dots (part ∷ other ∷ parts) = part ++ b'.' ∷ join_dots (other ∷ parts)

abbrev pub drop_plus : Chars → Chars
drop_plus [] = []
drop_plus (c ∷ text) = if c == b'+' then text else c ∷ text

-- `parse::<u32>()` and `parse::<u16>()`, by their number of bits.
unfoldable pub parse_uint : ℕ → Chars → Option ℕ
parse_uint bits text =
    if is_digits (drop_plus text) && ltb (value_of 0 (drop_plus text)) (2 ^ bits)
    then some (value_of 0 (drop_plus text))
    else none

pub record ParsedNodeHandle : Type 0 where
  pub pos : ℕ
  pub end : ℕ
  pub kind : ℕ
  pub path : Chars

unfoldable pub parse_fields : Chars → Chars → Chars → Chars → Option ParsedNodeHandle
unfolding parse_uint
parse_fields first second third path = parse_uint 32 first and_then λ pos.
    parse_uint 32 second and_then λ end. parse_uint 16 third and_then λ kind.
    if is_empty path || ltb end pos
    then none
    else some (record { pos = pos; end = end; kind = kind; path = path })

-- The four parts of the iterator, whose absence is an error in its place.
abbrev pub parse_parts : List Chars → Option ParsedNodeHandle
parse_parts (first ∷ second ∷ third ∷ path ∷ others) = parse_fields first second third path
parse_parts _ = none

-- Every error is the `InvalidHandle` of the handle itself, and is `none` here.
unfoldable pub parse_handle : Chars → Option ParsedNodeHandle
unfolding splitn_dots
parse_handle handle = parse_parts (splitn_dots 4 handle)

abbrev pub is_parsed : Option ℕ → Bool
is_parsed none = false
is_parsed (some n) = true

abbrev pub none_if_empty : Chars → Option Chars
none_if_empty path = if is_empty path then none else some path

unfoldable pub path_of : Chars → Chars → Chars → List Chars → Option Chars
unfolding parse_uint
path_of first second third rest =
    if not (is_parsed (parse_uint 32 first)) || not (is_parsed (parse_uint 32 second))
    then none
    else if is_parsed (parse_uint 32 third)
    then none_if_empty (join_dots rest)
    else none_if_empty (join_dots (third ∷ rest))

abbrev pub path_of_parts : List Chars → Option Chars
path_of_parts (first ∷ second ∷ third ∷ rest) = path_of first second third rest
path_of_parts _ = none

unfoldable pub declaring_path : Chars → Option Chars
unfolding split_dots
declaring_path handle = path_of_parts (split_dots handle)
