-- ===== src/Client/SourceFile/Decode.antt =====
-- src/core/corsa_client/src/api/source_file.rs: `EncodedSourceFile::decode`.
use corsa_bind.Common.{
  ℕ, ◌==◌, nat_eq, Bytes, Bool, true, false, ◌&&◌, Option, some, none, List, [], if◌then◌else◌,
}
use corsa_bind.Core.Error.{Result, ok, ◌>>=◌}
use corsa_bind.Client.ContentMapper.Definition.{MappedDiagnosticDirective}
use corsa_bind.Client.ContentMapper.Virtual.{SpanMap}
use corsa_bind.Client.SourceFile.Raw.{
  no_structured_data, ext_text, ext_file_name, ext_path, ext_language_variant, ext_script_kind,
  ext_original_text, ext_span_map, ext_supplemental_file_names, ext_canonical_file_name,
  ext_content_mapper, ext_virtual_file_name, ext_diagnostic_directives, read_u32,
}
use corsa_bind.Client.SourceFile.Header.{SourceFileHeader, read_header}
use corsa_bind.Client.SourceFile.Reader.{
  PayloadReader, new_reader, source_file_extended_data, string_at, optional_string, span_map,
  diagnostic_directives, string_array,
}

pub record ContentMapping : Type 0 where
  pub content_mapper : Bytes
  pub virtual_file_name : Bytes
  pub mapped_spans : SpanMap
  pub directives : List MappedDiagnosticDirective
  pub supplemental_source_file_names : List Bytes
  pub canonical_source_file_name : Option Bytes

abbrev pub is_some_bytes : Option Bytes → Bool
is_some_bytes none = false
is_some_bytes (some bytes) = true

abbrev pub is_supplemental : ContentMapping → Bool
is_supplemental mapping = is_some_bytes mapping.canonical_source_file_name

pub record EncodedSourceFile : Type 0 where
  pub protocol_version : ℕ
  pub file_name : Bytes
  pub path : Bytes
  pub text : Bytes
  pub original_text : Bytes
  pub language_variant : ℕ
  pub script_kind : ℕ
  pub content_mapping : Option ContentMapping

abbrev pub unwrap_or_default : Option Bytes → Bytes
unwrap_or_default none = []
unwrap_or_default (some bytes) = bytes

unfoldable pub read_mapping : PayloadReader → Bytes → ℕ → ℕ → Result ContentMapping
read_mapping r extended span_map_offset content_mapper_index =
    optional_string r content_mapper_index >>= λ content_mapper.
    read_u32 extended ext_virtual_file_name >>= λ virtual_index.
    optional_string r virtual_index >>= λ virtual_file_name. span_map r span_map_offset >>= λ spans.
    read_u32 extended ext_diagnostic_directives >>= λ directives_offset.
    diagnostic_directives r directives_offset >>= λ directives.
    read_u32 extended ext_supplemental_file_names >>= λ names_offset.
    string_array r names_offset >>= λ names.
    read_u32 extended ext_canonical_file_name >>= λ canonical_index.
    optional_string r canonical_index >>= λ canonical. ok (record {
      content_mapper = unwrap_or_default content_mapper;
      virtual_file_name = unwrap_or_default virtual_file_name;
      mapped_spans = spans;
      directives = directives;
      supplemental_source_file_names = names;
      canonical_source_file_name = canonical;
    })

unfoldable pub read_content_mapping : PayloadReader → Bytes → Result (Option ContentMapping)
unfolding read_mapping
read_content_mapping r extended = read_u32 extended ext_span_map >>= λ span_map_offset.
    read_u32 extended ext_content_mapper >>= λ content_mapper_index.
    if (span_map_offset == no_structured_data) && (content_mapper_index == no_structured_data)
    then ok none
    else (read_mapping r extended span_map_offset content_mapper_index >>= λ mapping.
        ok (some mapping))

unfoldable pub decode : Bytes → Result EncodedSourceFile
decode payload = new_reader payload >>= λ r. source_file_extended_data r >>= λ extended.
    read_u32 extended ext_text >>= λ text_index.
    read_u32 extended ext_original_text >>= λ original_text_index.
    string_at r text_index >>= λ text.
    (if original_text_index == text_index then ok text else string_at r original_text_index)
    >>= λ original_text. read_content_mapping r extended >>= λ mapping.
        read_u32 extended ext_file_name >>= λ name_index. string_at r name_index >>= λ file_name.
        read_u32 extended ext_path >>= λ path_index. string_at r path_index >>= λ path.
        read_u32 extended ext_language_variant >>= λ language_variant.
        read_u32 extended ext_script_kind >>= λ script_kind. ok (record {
          protocol_version = r.protocol_version;
          file_name = file_name;
          path = path;
          text = text;
          original_text = original_text;
          language_variant = language_variant;
          script_kind = script_kind;
          content_mapping = mapping;
        })

abbrev pub is_content_mapped : EncodedSourceFile → Bool
is_content_mapped file = elim file.content_mapping [ none ↦ false | some mapping ↦ true ]

abbrev pub spans_of : Option ContentMapping → Option SpanMap
spans_of none = none
spans_of (some mapping) = some mapping.mapped_spans

abbrev pub span_map_of : EncodedSourceFile → Option SpanMap
span_map_of file = spans_of file.content_mapping

-- `EncodedPayload::source_file_header`
unfoldable pub source_file_header : Bytes → Result SourceFileHeader
source_file_header payload = read_header payload >>= λ header. ok header.metadata
