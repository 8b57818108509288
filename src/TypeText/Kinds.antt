-- ===== src/TypeText/Kinds.antt =====
-- src/core/corsa_core/src/utils/type_text.rs.
use corsa_bind.Common.{
  ℕ, ◌+◌, ◌-◌, ◌*◌, ◌^◌, ◌==◌, nat_eq, Bool, true, false, ◌&&◌, ◌||◌, String, Option, some, none,
  List, [], ◌∷◌, length, take, ltb, leb, any, if◌then◌else◌, ◌and_then◌,
}
use corsa_bind.TypeText.Chars.{Chars, trim, is_empty, is_text, has_prefix, has_suffix}
use corsa_bind.TypeText.Split.{first_is, last_is, split_type_text_owned, strip_wrapping_parens}

pub data TypeTextKind : Type 0 where
  any_kind bigint boolean nullish number regexp string unknown other : TypeTextKind

abbrev pub as_str : TypeTextKind → String
as_str any_kind = "any"
as_str bigint = "bigint"
as_str boolean = "boolean"
as_str nullish = "nullish"
as_str number = "number"
as_str regexp = "regexp"
as_str string = "string"
as_str unknown = "unknown"
as_str other = "other"

-- `PartialEq`, derived: a number for each kind.
abbrev pub kind_index : TypeTextKind → ℕ
kind_index any_kind = 0
kind_index bigint = 1
kind_index boolean = 2
kind_index nullish = 3
kind_index number = 4
kind_index regexp = 5
kind_index string = 6
kind_index unknown = 7
kind_index other = 8

abbrev pub is_digit : ℕ → Bool
is_digit c = leb b'0' c && leb c b'9'

abbrev pub is_string_literal : Chars → Bool
is_string_literal text =
    (first_is b'"' text && last_is b'"' text)
    || ((first_is b'\'' text && last_is b'\'' text) || (first_is b'`' text && last_is b'`' text))

abbrev pub drop_digits : Chars → Chars
drop_digits [] = []
drop_digits (c ∷ cs) = if is_digit c then drop_digits cs else c ∷ cs

abbrev pub starts_with_digit : Chars → Bool
starts_with_digit [] = false
starts_with_digit (c ∷ cs) = is_digit c

abbrev pub drop_sign : Chars → Chars
drop_sign [] = []
drop_sign (c ∷ cs) = if (c == b'+') || (c == b'-') then cs else c ∷ cs

-- One digit at least, and nothing behind the digits.
abbrev pub is_digits : Chars → Bool
is_digits cs = starts_with_digit cs && is_empty (drop_digits cs)

-- What may stand behind the digits of a decimal: nothing, or an exponent.
abbrev pub is_exponent : Chars → Bool
is_exponent [] = true
is_exponent (c ∷ cs) = ((c == b'e') || (c == b'E')) && is_digits (drop_sign cs)

-- A decimal whose digits before the point, if any, have been dropped.
abbrev pub is_fraction : Bool → Chars → Bool
is_fraction digits_before [] = digits_before
is_fraction digits_before (c ∷ cs) =
    if c == b'.'
    then (digits_before || starts_with_digit cs) && is_exponent (drop_digits cs)
    else digits_before && is_exponent (c ∷ cs)

abbrev pub lower : ℕ → ℕ
lower c = if leb b'A' c && leb c b'Z' then c + 32 else c

abbrev pub lower_case : Chars → Chars
lower_case [] = []
lower_case (c ∷ cs) = lower c ∷ lower_case cs

abbrev pub is_special : Chars → Bool
is_special cs = is_text "inf" cs || (is_text "infinity" cs || is_text "nan" cs)

-- `parse::<f64>().is_ok()`: the grammar that the standard library documents.
unfoldable pub is_number_literal : Chars → Bool
is_number_literal text =
    let body = drop_sign text in
    is_special (lower_case body) || is_fraction (starts_with_digit body) (drop_digits body)

abbrev pub value_of : ℕ → Chars → ℕ
value_of n [] = n
value_of n (c ∷ cs) = value_of (n * 10 + (c - b'0')) cs

-- `parse::<i128>().is_ok()`: a sign, if any, digits, and a value that fits.
unfoldable pub parses_i128 : Chars → Bool
parses_i128 text =
    let body = drop_sign text in
    is_digits body && ltb (value_of 0 body) (if first_is b'-' text then 2 ^ 127 + 1 else 2 ^ 127)

unfoldable pub is_bigint_literal : Chars → Bool
unfolding parses_i128
is_bigint_literal text = last_is b'n' text && parses_i128 (take (length text - 1) text)

abbrev pub one_of : List String → Chars → Bool
one_of names text = any (λ name. is_text name text) names

unfoldable pub classify_atomic_type_text : Chars → Option TypeTextKind
unfolding is_number_literal is_bigint_literal
classify_atomic_type_text text =
    if is_text "any" text
    then some any_kind
    else if one_of ("unknown" ∷ "never" ∷ []) text
    then some unknown
    else if is_text "string" text
    then some string
    else if is_text "number" text
    then some number
    else if is_text "bigint" text
    then some bigint
    else if one_of ("boolean" ∷ "true" ∷ "false" ∷ []) text
    then some boolean
    else if one_of ("null" ∷ "undefined" ∷ []) text
    then some nullish
    else if is_text "RegExp" text
    then some regexp
    else if is_string_literal text
    then some string
    else if is_number_literal text
    then some number
    else if is_bigint_literal text
    then some bigint
    else none

abbrev pub is_kind : TypeTextKind → Option TypeTextKind → Bool
is_kind kind none = false
is_kind kind (some found) = kind_index found == kind_index kind

unfoldable pub contains_top_level_kind : Chars → TypeTextKind → Option TypeTextKind
contains_top_level_kind text kind =
    if any (λ part. is_kind kind (classify_atomic_type_text part)) (split_type_text_owned text)
    then some kind
    else none

abbrev pub or_else : Option TypeTextKind → Option TypeTextKind → Option TypeTextKind
or_else (some kind) next = some kind
or_else none next = next

abbrev pub unwrap_or_other : Option TypeTextKind → TypeTextKind
unwrap_or_other none = other
unwrap_or_other (some kind) = kind

-- `none` is fuel that ran out.
unfoldable pub classify_type_text : Option Chars → Option TypeTextKind
classify_type_text none = some other
classify_type_text (some text) =
    if is_empty (trim text)
    then some other
    else strip_wrapping_parens (trim text) and_then λ body. some (
        unwrap_or_other (
          or_else (classify_atomic_type_text body)
            (or_else (contains_top_level_kind body nullish) (contains_top_level_kind body regexp))))

-- `any` over texts whose test may run out of fuel; it stops at the first that passes.
abbrev pub any_text : (Chars → Option Bool) → List Chars → Option Bool
any_text p [] = some false
any_text p (text ∷ texts) = p text and_then λ passes. if passes then some true else any_text p texts

unfoldable pub matches_kind : List Chars → TypeTextKind → Option Bool
matches_kind type_texts kind =
    any_text
      (λ text. classify_type_text (some text) and_then λ found. some (is_kind kind (some found)))
      type_texts

abbrev pub is_string_like_type_texts : List Chars → Option Bool
is_string_like_type_texts type_texts = matches_kind type_texts string

abbrev pub is_number_like_type_texts : List Chars → Option Bool
is_number_like_type_texts type_texts = matches_kind type_texts number

abbrev pub is_bigint_like_type_texts : List Chars → Option Bool
is_bigint_like_type_texts type_texts = matches_kind type_texts bigint

abbrev pub is_any_like_type_texts : List Chars → Option Bool
is_any_like_type_texts type_texts = matches_kind type_texts any_kind

abbrev pub is_unknown_like_type_texts : List Chars → Option Bool
is_unknown_like_type_texts type_texts = matches_kind type_texts unknown

abbrev pub is_array_like_text : Chars → Bool
is_array_like_text text =
    has_suffix "[]" text
    || (has_prefix "Array<" text
        || (has_prefix "ReadonlyArray<" text || (first_is b'[' text && last_is b']' text)))

abbrev pub is_array_like_type_texts : List Chars → Bool
is_array_like_type_texts type_texts = any (λ text. is_array_like_text (trim text)) type_texts

abbrev pub is_string_array_text : Chars → Bool
is_string_array_text text =
    is_text "string[]" text
    || (is_text "readonly string[]" text
        || (has_prefix "Array<string>" text || has_prefix "ReadonlyArray<string>" text))

abbrev pub is_string_array_like_type_texts : List Chars → Bool
is_string_array_like_type_texts type_texts =
    any (λ text. is_string_array_text (trim text)) type_texts

abbrev pub is_promise_like_atom : Chars → Bool
is_promise_like_atom text =
    one_of ("Promise" ∷ "PromiseLike" ∷ "Thenable" ∷ []) text
    || (has_prefix "Promise<" text
        || (has_prefix "PromiseLike<" text || has_prefix "Thenable<" text))

unfoldable pub is_promise_like_type_text : Chars → Option Bool
is_promise_like_type_text text = strip_wrapping_parens text and_then λ body.
    some (any (λ part. is_promise_like_atom (trim part)) (split_type_text_owned body))

unfoldable pub is_promise_like_type_texts : List Chars → List Chars → Option Bool
is_promise_like_type_texts type_texts property_names =
    any_text is_promise_like_type_text type_texts and_then λ found.
    some (found || any (is_text "then") property_names)

-- The loop over the names, with what it has met.
unfoldable pub error_names_loop : Bool → Bool → List Chars → Bool
error_names_loop has_message has_name [] = false
error_names_loop has_message has_name (property ∷ property_names) =
    let message = has_message || is_text "message" property in
    let name = has_name || is_text "name" property in
    if message && name then true else error_names_loop message name property_names

unfoldable pub is_error_like_type_texts : List Chars → List Chars → Bool
unfolding error_names_loop
is_error_like_type_texts type_texts property_names =
    any (λ text. is_text "Error" (trim text) || has_suffix "Error" (trim text)) type_texts
    || error_names_loop false false property_names
