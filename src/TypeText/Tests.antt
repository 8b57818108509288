-- ===== src/TypeText/Tests.antt =====
-- Texts of types: splitting, parsing and flows at small inputs.
use corsa_bind.Common.{
  nat_eq, arith, ◌≡◌, refl, true, false, some, none, [], ◌∷◌, codes, concat, filter, All,
}
use corsa_bind.TypeText.Chars.{is_whitespace}
use corsa_bind.TypeText.Split.{
  step, split_loop, split_refs, split_comma_refs, split_generic, strip_wrapping_parens, strip_loop,
  is_wrapped_by, wrapped_loop, generic_loop, split_top_level_once,
}
use corsa_bind.TypeText.Split.Parts.{join}
use corsa_bind.TypeText.Split.Written.{Written, blank, plain, group, literal, angled}
use corsa_bind.TypeText.Split.Written.Joined.{IsWrittenPart, split_refs-join}
use corsa_bind.TypeText.Split.Kept.{IsSolid, is_kept, split_refs-kept}
use corsa_bind.TypeText.Kinds.{
  TypeTextKind, classify_type_text, classify_atomic_type_text, is_number_literal, is_bigint_literal,
  parses_i128,
}
use corsa_bind.TypeText.Parse.{
  SimpleType, Types, any_type, array, generic, other, intersection, nil, cons, parse_atom, shape_of,
  parse_loop, parse_type_text, parse_texts_loop, parse_type_texts,
}
use corsa_bind.TypeText.Parse.Total.{parse_type_text-Parses}
use corsa_bind.TypeText.Flow.{
  any_contains, is_permissive_target, is_unsafe_flow, has_unsafe_any_flow,
}
use corsa_bind.TypeText.Flow.Safety.{has_intersection, is_unsafe_flow_self}
use corsa_bind.TypeText.Flow.Reports.{has_unsafe_any_flow_safe}

-- The `>` of an arrow closes the angle bracket of the type that it stands in.
arrow_splits :
    split_comma_refs (codes "Map<() => void, string>")
    ≡ codes "Map<() => void" ∷ codes "string>" ∷ []
unfolding split_refs split_loop step is_whitespace
arrow_splits = refl

-- A union is a string to the classification if its first and last members are string literals.
union_as_string : classify_type_text (some (codes "'a' | 5 | 'b'")) ≡ some TypeTextKind.string
unfolding classify_type_text strip_wrapping_parens strip_loop is_wrapped_by wrapped_loop
    classify_atomic_type_text is_whitespace
union_as_string = refl

-- `any & T` flows unsafely into itself.
any_in_intersection :
    is_unsafe_flow
      (intersection (cons any_type (cons (other (codes "T")) nil)))
      (intersection (cons any_type (cons (other (codes "T")) nil)))
    ≡ true
unfolding is_unsafe_flow is_permissive_target
any_in_intersection = refl

generic_parsed :
    parse_type_text (codes "Array<any>") ≡ some (generic (codes "Array") (cons any_type nil))
unfolding parse_type_text parse_loop strip_wrapping_parens strip_loop is_wrapped_by wrapped_loop
    shape_of split_top_level_once split_refs split_loop step split_generic generic_loop parse_atom
    is_whitespace
generic_parsed = refl

-- M<a|b> and '|', whose delimiters stand in brackets and in quotes.
abbrev map_type : Written
map_type = plain b'M' (group angled (plain b'a' (plain b'|' (plain b'b' blank))) blank)

abbrev bar_literal : Written
bar_literal = literal b'\'' (b'|' ∷ []) blank

map_type-IsWrittenPart : IsWrittenPart b'|' none map_type
unfolding is_whitespace
map_type-IsWrittenPart = record {
  closed = (refl, ((refl, (refl, (refl, tt))), tt));
  whole = ((omega arith, λ e. cc), ((omega arith, λ e. cc), tt));
  starts = refl;
  ends = refl;
}

bar_literal-IsWrittenPart : IsWrittenPart b'|' none bar_literal
unfolding is_whitespace
bar_literal-IsWrittenPart = record {
  closed = (refl, (omega arith, tt), tt);
  whole = ((omega arith, λ e. cc), tt);
  starts = refl;
  ends = refl;
}

split_refs-join_example :
    split_refs b'|' none (join b'|' (codes "M<a|b>" ∷ codes "'|'" ∷ []))
    ≡ codes "M<a|b>" ∷ codes "'|'" ∷ []
split_refs-join_example =
    split_refs-join b'|' none map_type (bar_literal ∷ [])
      (map_type-IsWrittenPart, (bar_literal-IsWrittenPart, tt))

split_refs-kept_example :
    All IsSolid (split_refs b'|' (some b'&') (codes " a | <b | c> "))
    × (filter
          (is_kept b'|' (some b'&'))
          (concat (split_refs b'|' (some b'&') (codes " a | <b | c> ")))
        ≡ filter (is_kept b'|' (some b'&')) (codes " a | <b | c> "))
split_refs-kept_example = split_refs-kept b'|' (some b'&') (codes " a | <b | c> ")

parse_type_text-Parses_example :
    (t : SimpleType) × (parse_type_text (codes "(Map<string, any[]> | null)") ≡ some t)
parse_type_text-Parses_example = parse_type_text-Parses (codes "(Map<string, any[]> | null)")

abbrev array_of_any : SimpleType
array_of_any = array any_type

is_unsafe_flow_self_example : is_unsafe_flow array_of_any array_of_any ≡ false
unfolding has_intersection
is_unsafe_flow_self_example = is_unsafe_flow_self array_of_any refl

abbrev named : Types
named = cons (other (codes "T")) nil

named_parsed : parse_type_texts (codes "T" ∷ []) ≡ some named
unfolding parse_type_texts parse_texts_loop parse_type_text parse_loop strip_wrapping_parens
    strip_loop is_wrapped_by wrapped_loop shape_of split_top_level_once split_refs split_loop step
    split_generic generic_loop parse_atom is_whitespace is_number_literal is_bigint_literal
    parses_i128
named_parsed = refl

has_unsafe_any_flow_safe_example :
    has_unsafe_any_flow (codes "T" ∷ []) (codes "string" ∷ []) ≡ some false
unfolding any_contains
has_unsafe_any_flow_safe_example =
    has_unsafe_any_flow_safe (codes "T" ∷ []) (codes "string" ∷ []) named named_parsed refl
