-- ===== src/Client/Handles/Tests.antt =====
-- Node handles at concrete texts.
use corsa_bind.Common.{◌++◌, ◌∷◌, arith, ◌≡◌, refl, some, none, codes}
use corsa_bind.Client.Handles.{
  ParsedNodeHandle, split_dots, splitn_dots, parse_uint, parse_fields, parse_handle, path_of,
  declaring_path,
}
use corsa_bind.Client.Handles.Paths.{parse_handle-declaring_path, parse_handle-parts}

-- A full handle, whose path has dots.
abbrev parsed : ParsedNodeHandle
parsed = record { pos = 1; end = 5; kind = 123; path = codes "/w/a.b.ts" }

full : parse_handle (codes "1.5.123./w/a.b.ts") ≡ some parsed
unfolding parse_handle splitn_dots parse_fields parse_uint
full = refl

compact : declaring_path (codes "42.176./w/a.b.ts") ≡ some (codes "/w/a.b.ts")
unfolding declaring_path split_dots path_of parse_uint
compact = refl

-- A compact handle has no range to parse, and neither an inverted one nor a number over its width is read.
not_parsed : parse_handle (codes "42.176./w/a.ts") ≡ none
unfolding parse_handle splitn_dots parse_fields parse_uint
not_parsed = refl

inverted : parse_handle (codes "5.1.123./w") ≡ none
unfolding parse_handle splitn_dots parse_fields parse_uint
inverted = refl

too_wide : parse_handle (codes "1.5.65536./w") ≡ none
unfolding parse_handle splitn_dots parse_fields parse_uint
too_wide = refl

parse_handle-declaring_path_example :
    declaring_path (codes "1.5.123./w/a.b.ts") ≡ some (codes "/w/a.b.ts")
parse_handle-declaring_path_example =
    parse_handle-declaring_path (codes "1.5.123./w/a.b.ts") parsed full

abbrev fields : ParsedNodeHandle
fields = record { pos = 1; end = 5; kind = 123; path = codes "/w" }

one : parse_uint 32 (codes "1") ≡ some 1
unfolding parse_uint
one = refl

five : parse_uint 32 (codes "5") ≡ some 5
unfolding parse_uint
five = refl

kind_read : parse_uint 16 (codes "123") ≡ some 123
unfolding parse_uint
kind_read = refl

parse_handle-parts_example :
    parse_handle (codes "1" ++ b'.' ∷ (codes "5" ++ b'.' ∷ (codes "123" ++ b'.' ∷ codes "/w")))
    ≡ some fields
parse_handle-parts_example =
    parse_handle-parts (codes "1") (codes "5") (codes "123") (codes "/w") 1 5 123 (refl, tt)
      (refl, tt) (refl, (refl, (refl, tt))) one five kind_read refl (omega arith)
