-- ===== src/Client/ContentMapper/Features.antt =====
-- src/core/corsa_client/src/api/content_mapper.rs: the language-service features, as the bits of a u32.
use Prim.Native.Nat.{bit_and, bit_or}
use corsa_bind.Common.{ℕ, ◌-◌, ◌^◌, ◌==◌, nat_eq, Bool, not}

abbrev pub SpanMapFeature : Type 0
SpanMapFeature = ℕ

-- The features, each a bit of its own.
abbrev pub hover_feature : SpanMapFeature
hover_feature = 2 ^ 0

abbrev pub signature_help_feature : SpanMapFeature
signature_help_feature = 2 ^ 1

abbrev pub completion_feature : SpanMapFeature
completion_feature = 2 ^ 2

abbrev pub definition_feature : SpanMapFeature
definition_feature = 2 ^ 3

abbrev pub type_definition_feature : SpanMapFeature
type_definition_feature = 2 ^ 4

abbrev pub implementation_feature : SpanMapFeature
implementation_feature = 2 ^ 5

abbrev pub references_feature : SpanMapFeature
references_feature = 2 ^ 6

abbrev pub document_highlights_feature : SpanMapFeature
document_highlights_feature = 2 ^ 7

abbrev pub rename_feature : SpanMapFeature
rename_feature = 2 ^ 8

abbrev pub call_hierarchy_feature : SpanMapFeature
call_hierarchy_feature = 2 ^ 9

abbrev pub code_actions_feature : SpanMapFeature
code_actions_feature = 2 ^ 10

abbrev pub formatting_feature : SpanMapFeature
formatting_feature = 2 ^ 11

abbrev pub inlay_hints_feature : SpanMapFeature
inlay_hints_feature = 2 ^ 12

abbrev pub semantic_tokens_feature : SpanMapFeature
semantic_tokens_feature = 2 ^ 13

abbrev pub folding_ranges_feature : SpanMapFeature
folding_ranges_feature = 2 ^ 14

abbrev pub selection_ranges_feature : SpanMapFeature
selection_ranges_feature = 2 ^ 15

abbrev pub linked_editing_feature : SpanMapFeature
linked_editing_feature = 2 ^ 16

abbrev pub auto_insert_feature : SpanMapFeature
auto_insert_feature = 2 ^ 17

abbrev pub document_symbols_feature : SpanMapFeature
document_symbols_feature = 2 ^ 18

abbrev pub code_lens_feature : SpanMapFeature
code_lens_feature = 2 ^ 19

abbrev pub no_feature : SpanMapFeature
no_feature = 0

abbrev pub all_features : SpanMapFeature
all_features = 2 ^ 20 - 1

-- Whether every bit of `other` is set.
unfoldable pub contains : SpanMapFeature → SpanMapFeature → Bool
contains self other = bit_and self other == other

-- Whether any bit of `other` is set.
unfoldable pub intersects : SpanMapFeature → SpanMapFeature → Bool
intersects self other = not (bit_and self other == 0)

abbrev pub bitor : SpanMapFeature → SpanMapFeature → SpanMapFeature
bitor self rhs = bit_or self rhs

abbrev pub bitand : SpanMapFeature → SpanMapFeature → SpanMapFeature
bitand self rhs = bit_and self rhs
