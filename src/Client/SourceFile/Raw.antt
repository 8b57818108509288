-- ===== src/Client/SourceFile/Raw.antt =====
-- src/core/corsa_client/src/api/source_file.rs: reads of a payload's bytes, and its constants.
use corsa_bind.Common.{
  ℕ, ◌+◌, ◌*◌, ◌^◌, Bytes, ◌&&◌, Option, some, none, String, List, [], ◌∷◌, length, slice, ltb, leb,
  if◌then◌else◌, map,
}
use corsa_bind.Core.Text.{Arg}
use corsa_bind.Core.Error.{CorsaError, protocol, Result, ok_or, ◌>>=◌, ok}

abbrev pub min_source_file_protocol_version : ℕ
min_source_file_protocol_version = 7

abbrev pub max_source_file_protocol_version : ℕ
max_source_file_protocol_version = 9

abbrev pub node_size : ℕ
node_size = 28

abbrev pub node_offset_data : ℕ
node_offset_data = 20

abbrev pub node_data_type_mask : ℕ
node_data_type_mask = 0xc000_0000

abbrev pub node_data_type_extended : ℕ
node_data_type_extended = 2 * 2 ^ 30

abbrev pub node_data_payload_mask : ℕ
node_data_payload_mask = 0x00ff_ffff

abbrev pub no_structured_data : ℕ
no_structured_data = 0xffff_ffff

abbrev pub ext_text : ℕ
ext_text = 0

abbrev pub ext_file_name : ℕ
ext_file_name = 4

abbrev pub ext_path : ℕ
ext_path = 8

abbrev pub ext_language_variant : ℕ
ext_language_variant = 12

abbrev pub ext_script_kind : ℕ
ext_script_kind = 16

abbrev pub ext_original_text : ℕ
ext_original_text = 48

abbrev pub ext_span_map : ℕ
ext_span_map = 52

abbrev pub ext_supplemental_file_names : ℕ
ext_supplemental_file_names = 56

abbrev pub ext_canonical_file_name : ℕ
ext_canonical_file_name = 60

abbrev pub ext_content_mapper : ℕ
ext_content_mapper = 64

abbrev pub ext_virtual_file_name : ℕ
ext_virtual_file_name = 68

abbrev pub ext_diagnostic_directives : ℕ
ext_diagnostic_directives = 72

abbrev pub ext_source_file_size : ℕ
ext_source_file_size = 76

-- `protocol(format_args!(…))`, with the numbers that the text shows.
abbrev pub refused : String → List ℕ → CorsaError
refused format numbers = protocol (record { format = format; args = map Arg.num numbers })

-- `bytes.get(start..end)`
unfoldable pub get_range : Bytes → ℕ → ℕ → Option Bytes
get_range bytes start end =
    if leb start end && leb end (length bytes) then some (slice bytes start end) else none

-- `from_le_bytes`
abbrev pub from_le : Bytes → ℕ
from_le [] = 0
from_le (b ∷ bs) = b + 256 * from_le bs

unfoldable pub read_u32 : Bytes → ℕ → Result ℕ
read_u32 bytes offset =
    ok_or (get_range bytes offset (offset + 4))
      (refused "encoded source file ends before the 4 bytes at {offset}" (offset ∷ []))
    >>= λ read. ok (from_le read)

unfoldable pub read_u64 : Bytes → ℕ → Result ℕ
read_u64 bytes offset =
    ok_or (get_range bytes offset (offset + 8))
      (refused "incomplete u64 header field at {offset}" (offset ∷ []))
    >>= λ read. ok (from_le read)

-- `checked_add` of a usize.
abbrev pub checked_add : ℕ → ℕ → Option ℕ
checked_add a b = if ltb (a + b) (2 ^ 64) then some (a + b) else none
