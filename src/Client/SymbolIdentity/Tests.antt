-- ===== src/Client/SymbolIdentity/Tests.antt =====
-- A symbol of a source file, at a concrete handle.
use Prim.Native.String.{◌++◌}
use corsa_bind.TypeText.Kinds.{is_digits, value_of}
use corsa_bind.Common.{
  ℕ, ◌^◌, true, false, ◌&&◌, Option, ltb, codes, ◌≡◌, refl, some, none, String, string_eq, List, [],
  ◌∷◌, ◌==◌, if◌then◌else◌,
}
use corsa_bind.Core.Value.{
  Value, Items, Fields, null, boolean, number, string, array, object, nil, cons, field, end,
}
use corsa_bind.Client.FileMemo.{with_generation}
use corsa_bind.Client.FileMemo.Kept.{MemoUse, remembers, gets}
use corsa_bind.Client.SymbolIdentity.{
  JsonTexts, Memo, RequestScope, file_handle, snapshot_handle, decimal,
}

-- A JSON library: numbers of 64 bits, texts without white space, for strings without quotes, and a parser
-- that knows the texts of two handles.
abbrev number_u64 : String → Option ℕ
number_u64 text =
    let value = value_of 0 (codes text) in
    if is_digits (codes text) && ltb value (2 ^ 64) then some value else none

mutual
  print : Value → String
  print null = "null"
  print (boolean true) = "true"
  print (boolean false) = "false"
  print (number text) = text
  print (string text) = "\"" ++ (text ++ "\"")
  print (array items) = "[" ++ (print_items items ++ "]")
  print (object fields) = "{" ++ (print_fields fields ++ "}")

  print_items : Items → String
  print_items nil = ""
  print_items (cons item nil) = print item
  print_items (cons item (cons other items)) = print item ++ ("," ++ print_items (cons other items))

  print_fields : Fields → String
  print_fields end = ""
  print_fields (field key v end) = "\"" ++ (key ++ ("\":" ++ print v))
  print_fields (field key v (field other w fields)) =
      "\"" ++ (key ++ ("\":" ++ (print v ++ ("," ++ print_fields (field other w fields)))))

abbrev known_value : String → Value
known_value id = object (field "file" (string "142") (field "id" (number id) end))

from_str : String → Option Value
unfolding print
from_str text =
    if text == print (known_value "6")
    then some (known_value "6")
    else if text == print (known_value "7")
    then some (known_value "7")
    else none

abbrev texts : JsonTexts
texts = record { number_u64 = number_u64; to_string = print; from_str = from_str }

handle_text : file_handle texts 6 "142" ≡ "{\"file\":\"142\",\"id\":6}"
unfolding file_handle decimal print
handle_text = refl

snapshot_text : snapshot_handle 9 (some 3) ≡ "{\"id\":9,\"snapshot\":3}"
unfolding snapshot_handle decimal
snapshot_text = refl

abbrev descriptor : Fields
descriptor = field "nodeId" (string "142") (field "path" (string "/w/a.ts") end)

abbrev reference : Fields
reference =
    field "kind" (number "0") (field "file" (object descriptor) (field "id" (number "6") end))

abbrev scope : RequestScope
scope = record { snapshot = none; project = none }

abbrev memo : Memo
memo = with_generation 2

abbrev uses : List (MemoUse String Value)
uses = gets "7" ∷ remembers "8" (object end) ∷ []
