-- ===== src/Client/ContentMapper/Definition.antt =====
-- src/core/corsa_client/src/api/content_mapper.rs: the content mappers that a tsconfig declares, the
-- extensions that they may emit, and directives. The decoding of an entry is serde's, a parameter.
use corsa_bind.Common.{
  ℕ, ◌==◌, String, string_eq, Bool, Option, some, none, List, [], ◌∷◌, any, if◌then◌else◌,
}
use corsa_bind.Core.Value.{Value, Items, Fields}
use corsa_bind.Client.ContentMapper.Ranges.{TextRange}
use corsa_bind.Client.ContentMapper.Codes.{DiagnosticDirectivePolicy}

abbrev pub supported_virtual_extensions : List String
supported_virtual_extensions =
    ".js" ∷ ".jsx" ∷ ".mjs" ∷ ".cjs" ∷ ".ts" ∷ ".tsx" ∷ ".mts" ∷ ".cts" ∷ ".json" ∷ []

-- `contains`
abbrev pub is_supported_virtual_extension : String → Bool
is_supported_virtual_extension extension =
    any (λ supported. supported == extension) supported_virtual_extensions

pub record MappedDiagnosticDirective : Type 0 where
  pub original_range : TextRange
  pub virtual_range : TextRange
  pub policy : DiagnosticDirectivePolicy
  pub unused_code : ℕ

pub record ContentMapperDefinition : Type 0 where
  pub package_name : String
  pub extensions : List String
  pub options : Option Value

abbrev pub handles_extension : ContentMapperDefinition → String → Bool
handles_extension mapper extension = any (λ declared. declared == extension) mapper.extensions

-- `Value::get` on an object; a later member of the same name replaces an earlier one.
abbrev pub get_member : String → Fields → Option Value
get_member name Fields.end = none
get_member name (Fields.field key value fields) = elim (get_member name fields) [
  | some found ↦ some found
  | none ↦ if key == name then some value else none
]

module _ (from_value : Value → Option ContentMapperDefinition) where
  -- `filter_map(|entry| from_value(entry).ok())`
  unfoldable pub mappers_of : Items → List ContentMapperDefinition
  mappers_of Items.nil = []
  mappers_of (Items.cons entry entries) = elim (from_value entry) [
    | none ↦ mappers_of entries
    | some mapper ↦ mapper ∷ mappers_of entries
  ]

  unfoldable pub mappers_in : Option Value → List ContentMapperDefinition
  unfolding mappers_of
  mappers_in (some (Value.array entries)) = mappers_of entries
  mappers_in _ = []

  unfoldable pub from_raw_config : Value → List ContentMapperDefinition
  unfolding mappers_in
  from_raw_config (Value.object fields) = mappers_in (get_member "contentMappers" fields)
  from_raw_config _ = []
