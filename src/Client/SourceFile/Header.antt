-- ===== src/Client/SourceFile/Header.antt =====
-- src/core/corsa_client/src/api/source_file/header.rs: the versioned header, and the reads of version 9.
use Prim.Native.Nat.{bit_and}
use corsa_bind.Common.{
  ℕ, ◌+◌, ◌-◌, ◌*◌, ◌%◌, ◌==◌, nat_eq, Bytes, Bool, true, false, not, ◌&&◌, ◌||◌, Option, some,
  none, [], ◌∷◌, length, get_elem?, ltb, leb, if◌then◌else◌, ◌and_then◌,
}
use corsa_bind.Core.Error.{CorsaError, Result, ok, err, ◌>>=◌, ok_or}
use corsa_bind.Client.SourceFile.Raw.{
  min_source_file_protocol_version, max_source_file_protocol_version, node_size, node_offset_data,
  node_data_type_mask, node_data_type_extended, node_data_payload_mask, ext_source_file_size,
  refused, get_range, read_u32, read_u64, checked_add,
}

pub record SourceFileHeader : Type 0 where
  pub protocol_version : ℕ
  pub source_file_id : Option ℕ
  pub source_file_lease : Option ℕ
  pub binder_data_offset : Option ℕ

-- The offsets of the sections.
pub record Sections : Type 0 where
  pub string_offsets : ℕ
  pub string_data : ℕ
  pub extended_data : ℕ
  pub structured_data : ℕ
  pub nodes : ℕ

pub record Header : Type 0 where
  pub metadata : SourceFileHeader
  pub sections : Sections

-- `if condition { return Err(error) }`
abbrev pub refuse_if : Bool → CorsaError → Result (Unit {0})
refuse_if true e = err e
refuse_if false e = ok tt

abbrev pub header_size_of : ℕ → Result ℕ
header_size_of version =
    if (version == 7) || (version == 8)
    then ok 44
    else if version == 9
    then ok 64
    else err (
        refused
          "unsupported encoded source file protocol version {version} (this build decodes source-file metadata versions {MIN_SOURCE_FILE_PROTOCOL_VERSION} through {MAX_SOURCE_FILE_PROTOCOL_VERSION})"
          (version ∷ min_source_file_protocol_version ∷ max_source_file_protocol_version ∷ []))

abbrev pub in_order : Sections → ℕ → Bool
in_order s len =
    leb s.string_offsets s.string_data
    && (leb s.string_data s.extended_data
        && (leb s.extended_data s.structured_data
            && (leb s.structured_data s.nodes && leb s.nodes len)))

unfoldable pub read_sections : Bytes → Result Sections
read_sections payload = read_u32 payload 24 >>= λ string_offsets.
    read_u32 payload 28 >>= λ string_data. read_u32 payload 32 >>= λ extended_data.
    read_u32 payload 36 >>= λ structured_data. read_u32 payload 40 >>= λ nodes.
    let s : Sections = record {
      string_offsets = string_offsets;
      string_data = string_data;
      extended_data = extended_data;
      structured_data = structured_data;
      nodes = nodes;
    } in
    refuse_if (not (in_order s (length payload))) (
      refused
        "encoded source file sections are out of order or out of bounds: {string_offsets}, {string_data}, {extended_data}, {structured_data}, {nodes} in {} bytes"
        (string_offsets
          ∷ string_data
          ∷ extended_data
          ∷ structured_data
          ∷ nodes
          ∷ length payload
          ∷ []))
    >>= λ checked. ok s

-- The binder's offset must be zero; the two errors for one that is not.
abbrev pub binder_error : Sections → ℕ → ℕ → CorsaError
binder_error s len binder =
    if ltb binder s.nodes || ltb len binder
    then refused "version-9 binder offset is outside the node region" []
    else refused "nonzero version-9 binder data is not supported" []

unfoldable pub read_v9 : Bytes → Sections → ℕ → Result SourceFileHeader
read_v9 payload s header_size =
    refuse_if
      (ltb s.string_offsets header_size || not ((s.string_data - s.string_offsets) % 8 == 0))
      (refused "invalid version-9 header/string-offset boundary" [])
    >>= λ boundary. read_u32 payload 60 >>= λ binder.
        refuse_if (not (binder == 0)) (binder_error s (length payload) binder) >>= λ unbound.
        refuse_if
          (ltb (length payload - s.nodes) (node_size * 2)
            || not ((length payload - s.nodes) % node_size == 0))
          (refused "invalid version-9 root/node region" [])
        >>= λ region. read_u64 payload 44 >>= λ id. read_u64 payload 52 >>= λ lease. ok (record {
          protocol_version = 9;
          source_file_id = some id;
          source_file_lease = some lease;
          binder_data_offset = some binder;
        })

abbrev pub legacy_header : ℕ → SourceFileHeader
legacy_header version = record {
  protocol_version = version;
  source_file_id = none;
  source_file_lease = none;
  binder_data_offset = none;
}

-- The byte at 3 is there, as the length was tested before.
unfoldable pub read_header : Bytes → Result Header
unfolding read_sections read_v9
read_header payload =
    refuse_if (ltb (length payload) 44) (
      refused "encoded source file is {} bytes, shorter than the {minimum} byte header"
        (length payload ∷ 44 ∷ []))
    >>= λ long. ok_or (get_elem? payload 3) (refused "out of range" []) >>= λ version.
        header_size_of version >>= λ header_size.
        refuse_if (ltb (length payload) header_size) (
          refused
            "encoded source file is {} bytes, shorter than the {header_size} byte version-{version} header"
            (length payload ∷ header_size ∷ version ∷ []))
        >>= λ whole. read_sections payload >>= λ s.
            (if version == 9 then read_v9 payload s header_size else ok (legacy_header version))
            >>= λ metadata. ok (record { metadata = metadata; sections = s })

-- The extended data of the root node of a version-9 payload.
unfoldable pub source_data : Bytes → ℕ → ℕ → ℕ → Result Bytes
source_data payload nodes extended structured =
    ok_or (checked_add nodes node_size) (refused "version-9 root offset overflow" []) >>= λ root.
    ok_or
      (checked_add root node_size and_then λ end.
        if ltb (length payload) end then none else some end)
      (refused "version-9 root record is outside the node region" [])
    >>= λ record_end. read_u32 payload (root + node_offset_data) >>= λ data_word.
        refuse_if (not (bit_and data_word node_data_type_mask == node_data_type_extended))
          (refused "version-9 root has no source-file extended data" [])
        >>= λ is_extended.
            ok_or (checked_add extended (bit_and data_word node_data_payload_mask))
              (refused "version-9 extended-data offset overflow" [])
            >>= λ start.
                ok_or (checked_add start ext_source_file_size)
                  (refused "version-9 extended-data size overflow" [])
                >>= λ end.
                    ok_or
                      (get_range payload start end and_then λ bytes.
                        if leb end structured then some bytes else none)
                      (refused "version-9 source-file record crosses the extended-data boundary" [])

-- Where the offsets pair of a string is: at an even index, in the table of offsets.
abbrev pub offsets_pair : ℕ → ℕ → ℕ → Option ℕ
offsets_pair offsets strings index = checked_add offsets (index * 4) and_then λ entry.
    checked_add entry 8 and_then λ end.
    if (index % 2 == 0) && leb end strings then some entry else none

unfoldable pub string_bytes : Bytes → ℕ → ℕ → ℕ → ℕ → Result Bytes
string_bytes payload offsets strings extended index =
    ok_or (offsets_pair offsets strings index)
      (refused "version-9 string {index} has no complete offsets pair" (index ∷ []))
    >>= λ entry. read_u32 payload entry >>= λ low.
        ok_or (checked_add strings low) (refused "version-9 string start overflow" []) >>= λ start.
        read_u32 payload (entry + 4) >>= λ high.
        ok_or (checked_add strings high) (refused "version-9 string end overflow" []) >>= λ end.
        refuse_if (ltb end start || ltb extended end)
          (refused "version-9 string {index} is outside the string-data region" (index ∷ []))
        >>= λ inside.
            ok_or (get_range payload start end)
              (refused "version-9 string {index} is outside the payload" (index ∷ []))
