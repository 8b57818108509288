-- ===== src/Client/SourceFile/Tests.antt =====
-- source_file.rs at concrete payloads.
use corsa_bind.Common.{ℕ, zero, suc, ◌≤◌, ◌≡◌, refl, Bytes, some, none, [], ◌∷◌, length}
use corsa_bind.Core.Error.{ok, err}
use corsa_bind.Client.ContentMapper.Ranges.{new_range}
use corsa_bind.Client.ContentMapper.Features.{all_features}
use corsa_bind.Client.ContentMapper.Segments.{SpanMapKind}
use corsa_bind.Client.ContentMapper.Codes.{kind_from_u8}
use corsa_bind.Client.ContentMapper.Virtual.{SpanMap, map_range, new_span_map}
use corsa_bind.Client.ContentMapper.Virtual.Spans.{Maps}
use corsa_bind.Client.SourceFile.Raw.{refused, read_u32, read_u64, get_range}
use corsa_bind.Client.SourceFile.Cursor.{
  array_len, uint, string, marker, be_uint, take_bytes, read_each,
}
use corsa_bind.Client.SourceFile.Header.{
  Header, legacy_header, read_header, read_sections, read_v9, source_data, string_bytes,
}
use corsa_bind.Client.SourceFile.Reader.{
  new_reader, source_file_extended_data, string_at, optional_string, structured, span_map,
  read_segment, diagnostic_directives, read_directive, string_array,
}
use corsa_bind.Client.SourceFile.Decode.{
  EncodedSourceFile, decode, read_mapping, read_content_mapping,
}
use corsa_bind.Client.SourceFile.Spans.{decode-map_range}
use corsa_bind.Client.SourceFile.Sections.{AreBounded, read_header-AreBounded}

abbrev zeros : ℕ → Bytes
zeros zero = []
zeros (suc n) = 0 ∷ zeros n

-- A payload of version 7, with three strings and a content mapping of two segments.
abbrev payload : Bytes
payload =
    0 ∷ 0 ∷ 0 ∷ 7 ∷ 0 ∷ 0 ∷ 0 ∷ 0 ∷ 0 ∷ 0 ∷ 0 ∷ 0 ∷ 0 ∷ 0 ∷ 0 ∷ 0 ∷ 0 ∷ 0 ∷ 0 ∷ 0 ∷ 0 ∷ 0 ∷ 0 ∷ 0
    ∷ 44 ∷ 0 ∷ 0 ∷ 0 ∷ 60 ∷ 0 ∷ 0 ∷ 0 ∷ 70 ∷ 0 ∷ 0 ∷ 0 ∷ 146 ∷ 0 ∷ 0 ∷ 0 ∷ 165 ∷ 0 ∷ 0 ∷ 0 ∷ 0 ∷ 0
    ∷ 0 ∷ 0 ∷ 5 ∷ 0 ∷ 0 ∷ 0 ∷ 7 ∷ 0 ∷ 0 ∷ 0 ∷ 10 ∷ 0 ∷ 0 ∷ 0 ∷ 120 ∷ 46 ∷ 118 ∷ 117 ∷ 101 ∷ 47 ∷ 120
    ∷ 108 ∷ 101 ∷ 116 ∷ 2 ∷ 0 ∷ 0 ∷ 0 ∷ 0 ∷ 0 ∷ 0 ∷ 0 ∷ 1 ∷ 0 ∷ 0 ∷ 0 ∷ 1 ∷ 0 ∷ 0 ∷ 0 ∷ 3 ∷ 0 ∷ 0
    ∷ 0 ∷ 0 ∷ 0 ∷ 0 ∷ 0 ∷ 0 ∷ 0 ∷ 0 ∷ 0 ∷ 0 ∷ 0 ∷ 0 ∷ 0 ∷ 0 ∷ 0 ∷ 0 ∷ 0 ∷ 0 ∷ 0 ∷ 0 ∷ 0 ∷ 0 ∷ 0 ∷ 0
    ∷ 0 ∷ 0 ∷ 0 ∷ 0 ∷ 0 ∷ 2 ∷ 0 ∷ 0 ∷ 0 ∷ 0 ∷ 0 ∷ 0 ∷ 0 ∷ 255 ∷ 255 ∷ 255 ∷ 255 ∷ 255 ∷ 255 ∷ 255
    ∷ 255 ∷ 0 ∷ 0 ∷ 0 ∷ 0 ∷ 1 ∷ 0 ∷ 0 ∷ 0 ∷ 255 ∷ 255 ∷ 255 ∷ 255 ∷ 146 ∷ 149 ∷ 2 ∷ 1 ∷ 205 ∷ 1 ∷ 0
    ∷ 1 ∷ 0 ∷ 149 ∷ 0 ∷ 1 ∷ 206 ∷ 255 ∷ 255 ∷ 255 ∷ 255 ∷ 5 ∷ 0 ∷ 0 ∷ 0 ∷ 0 ∷ 0 ∷ 0 ∷ 0 ∷ 0 ∷ 0 ∷ 0
    ∷ 0 ∷ 0 ∷ 0 ∷ 0 ∷ 0 ∷ 0 ∷ 0 ∷ 0 ∷ 0 ∷ 0 ∷ 0 ∷ 0 ∷ 0 ∷ 0 ∷ 0 ∷ 0 ∷ 0 ∷ 0 ∷ 0 ∷ 0 ∷ 0 ∷ 0 ∷ 0 ∷ 0
    ∷ 0 ∷ 0 ∷ 0 ∷ 0 ∷ 0 ∷ 0 ∷ 0 ∷ 0 ∷ 0 ∷ 0 ∷ 0 ∷ 0 ∷ 0 ∷ 0 ∷ 0 ∷ 0 ∷ 0 ∷ 0 ∷ 128 ∷ 0 ∷ 0 ∷ 0 ∷ 0
    ∷ []

abbrev spans : SpanMap
spans =
    record {
      virtual_start = 0;
      virtual_end = 1;
      original_start = 4294967295;
      original_end = 4294967295;
      kind = SpanMapKind.verbatim;
      features = all_features;
    }
    ∷ record {
      virtual_start = 2;
      virtual_end = 3;
      original_start = 256;
      original_end = 257;
      kind = SpanMapKind.verbatim;
      features = all_features;
    }
    ∷ []

abbrev file : EncodedSourceFile
file = record {
  protocol_version = 7;
  file_name = 120 ∷ 46 ∷ 118 ∷ 117 ∷ 101 ∷ [];
  path = 47 ∷ 120 ∷ [];
  text = 108 ∷ 101 ∷ 116 ∷ [];
  original_text = 108 ∷ 101 ∷ 116 ∷ [];
  language_variant = 1;
  script_kind = 3;
  content_mapping = some (record {
    content_mapper = 120 ∷ 46 ∷ 118 ∷ 117 ∷ 101 ∷ [];
    virtual_file_name = 47 ∷ 120 ∷ [];
    mapped_spans = spans;
    directives = [];
    supplemental_source_file_names = [];
    canonical_source_file_name = none;
  });
}

decoded : decode payload ≡ ok file
unfolding decode new_reader read_header read_sections read_v9 source_file_extended_data source_data
    string_at string_bytes optional_string structured span_map read_segment diagnostic_directives
    read_directive string_array read_mapping read_content_mapping read_u32 read_u64 get_range
    array_len uint string marker be_uint take_bytes read_each kind_from_u8 new_span_map
decoded = refl

decode-map_range_example : Maps (map_range spans (new_range 5 1))
decode-map_range_example = decode-map_range payload file spans decoded refl (new_range 5 1)

abbrev header : Header
header = record {
  metadata = legacy_header 7;
  sections = record {
    string_offsets = 44;
    string_data = 60;
    extended_data = 70;
    structured_data = 146;
    nodes = 165;
  };
}

header_read : read_header payload ≡ ok header
unfolding read_header read_sections read_u32 get_range
header_read = refl

read_header-AreBounded_example : (44 ≤ length payload) × AreBounded header.sections (length payload)
read_header-AreBounded_example = read_header-AreBounded payload header header_read

-- A payload of a version that is not known, and one that ends in its header.
refused_version :
    decode (0 ∷ 0 ∷ 0 ∷ 10 ∷ zeros 40)
    ≡ err (
        refused
          "unsupported encoded source file protocol version {version} (this build decodes source-file metadata versions {MIN_SOURCE_FILE_PROTOCOL_VERSION} through {MAX_SOURCE_FILE_PROTOCOL_VERSION})"
          (10 ∷ 7 ∷ 9 ∷ []))
unfolding decode new_reader read_header
refused_version = refl

refused_length :
    decode (0 ∷ 0 ∷ 0 ∷ 9 ∷ zeros 40)
    ≡ err (
        refused
          "encoded source file is {} bytes, shorter than the {header_size} byte version-{version} header"
          (44 ∷ 64 ∷ 9 ∷ []))
unfolding decode new_reader read_header
refused_length = refl
