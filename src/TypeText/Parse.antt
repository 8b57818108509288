-- ===== src/TypeText/Parse.antt =====
-- src/core/corsa_core/src/utils/unsafe_flow.rs: the types that texts are parsed to.
pub mod Shorter
pub mod Total
use corsa_bind.Common.{
  ℕ, zero, suc, ◌+◌, ◌-◌, ◌==◌, nat_eq, Bool, true, false, not, ◌&&◌, ◌||◌, String, codes, Option,
  some, none, List, [], ◌∷◌, ◌++◌, length, take, elem, if◌then◌else◌, ◌and_then◌,
}
use corsa_bind.TypeText.Chars.{Chars, chars_eq, trim, is_empty, is_text, has_suffix}
use corsa_bind.TypeText.Split.{
  first_is, last_is, inside, split_comma_refs, split_generic, split_top_level_once, is_wrapped_by,
  strip_wrapping_parens,
}
use corsa_bind.TypeText.Kinds.{one_of, is_string_literal, is_number_literal, is_bigint_literal}

mutual
  pub data SimpleType : Type 0 where
    any_type never_type unknown_type : SimpleType
    primitive : Chars → SimpleType
    array : SimpleType → SimpleType
    tuple : Types → SimpleType
    generic : Chars → Types → SimpleType
    union : Types → SimpleType
    intersection : Types → SimpleType
    other : Chars → SimpleType

  pub data Types : Type 0 where
    nil : Types
    cons : SimpleType → Types → Types

-- The final match, on a text that no constructor of types stands in.
unfoldable pub parse_atom : Chars → SimpleType
parse_atom text =
    if is_text "any" text
    then any_type
    else if is_text "unknown" text
    then unknown_type
    else if is_text "never" text
    then never_type
    else if one_of
        ("string" ∷ "number" ∷ "boolean" ∷ "bigint" ∷ "symbol" ∷ "null" ∷ "undefined" ∷ []) text
    then primitive text
    else if one_of ("true" ∷ "false" ∷ []) text
    then primitive (codes "boolean")
    else if is_string_literal text
    then primitive (codes "string")
    else if is_number_literal text
    then primitive (codes "number")
    else if is_bigint_literal text
    then primitive (codes "bigint")
    else other text

-- What a text is, before its parts are parsed.
pub data Shape : Type 0 where
  union_of : List Chars → Shape
  intersection_of : List Chars → Shape
  array_of : Chars → Shape
  tuple_of : List Chars → Shape
  generic_of : Chars → List Chars → Shape
  atom_of : Chars → Shape

abbrev pub generic_or_atom : Chars → Option (Chars × Chars) → Shape
generic_or_atom text none = atom_of text
generic_or_atom text (some (base, args)) = generic_of base (split_comma_refs args)

abbrev pub suffixed_shape : Chars → Shape
suffixed_shape text =
    if has_suffix "[]" text
    then array_of (take (length text - 2) text)
    else if is_wrapped_by text b'[' b']'
    then tuple_of (split_comma_refs (inside text))
    else generic_or_atom text (split_generic text)

abbrev pub intersection_shape : Chars → Option (List Chars) → Shape
intersection_shape text none = suffixed_shape text
intersection_shape text (some parts) = intersection_of parts

abbrev pub union_shape : Chars → Option (List Chars) → Shape
union_shape text none = intersection_shape text (split_top_level_once text b'&')
union_shape text (some parts) = union_of parts

unfoldable pub shape_of : Chars → Shape
shape_of text = union_shape text (split_top_level_once text b'|')

abbrev pub map_types : (Chars → Option SimpleType) → List Chars → Option Types
map_types f [] = some nil
map_types f (part ∷ parts) = f part and_then λ t. map_types f parts and_then λ ts. some (cons t ts)

-- Each level of nesting takes one unit of fuel.
abbrev pub parse_shape : (Chars → Option SimpleType) → Shape → Option SimpleType
parse_shape f (union_of parts) = map_types f parts and_then λ ts. some (union ts)
parse_shape f (intersection_of parts) = map_types f parts and_then λ ts. some (intersection ts)
parse_shape f (array_of item) = f item and_then λ t. some (array t)
parse_shape f (tuple_of parts) = map_types f parts and_then λ ts. some (tuple ts)
parse_shape f (generic_of base args) = map_types f args and_then λ ts. some (generic base ts)
parse_shape f (atom_of text) = some (parse_atom text)

unfoldable pub parse_loop : ℕ → Chars → Option SimpleType
parse_loop zero text = none
parse_loop (suc fuel) text =
    strip_wrapping_parens text and_then λ body. parse_shape (parse_loop fuel) (shape_of body)

unfoldable pub parse_type_text : Chars → Option SimpleType
unfolding parse_loop
parse_type_text text = parse_loop (suc (length text)) text

-- The loop of `parse_type_texts`; blank texts and those that were seen are left out.
unfoldable pub parse_texts_loop : List Chars → List Chars → Option Types
unfolding parse_type_text
parse_texts_loop seen [] = some nil
parse_texts_loop seen (text ∷ texts) =
    let trimmed = trim text in
    if is_empty trimmed || elem trimmed seen
    then parse_texts_loop seen texts
    else parse_type_text trimmed and_then λ t.
        parse_texts_loop (trimmed ∷ seen) texts and_then λ ts. some (cons t ts)

unfoldable pub parse_type_texts : List Chars → Option Types
unfolding parse_texts_loop
parse_type_texts texts = parse_texts_loop [] texts
