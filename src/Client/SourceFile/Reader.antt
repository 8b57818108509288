-- ===== src/Client/SourceFile/Reader.antt =====
-- src/core/corsa_client/src/api/source_file.rs: `PayloadReader`.
use Prim.Native.Nat.{bit_and, min, max}
use corsa_bind.Common.{
  ℕ, ◌+◌, ◌*◌, ◌==◌, nat_eq, Bytes, not, ◌&&◌, Option, some, none, List, [], ◌∷◌, length, leb, ltb,
  if◌then◌else◌, ◌and_then◌,
}
use corsa_bind.Core.Error.{Result, ok, err, ◌>>=◌, ok_or}
use corsa_bind.Client.ContentMapper.Ranges.{new_range}
use corsa_bind.Client.ContentMapper.Features.{all_features}
use corsa_bind.Client.ContentMapper.Segments.{SpanMapSegment}
use corsa_bind.Client.ContentMapper.Codes.{TryFrom, known, unknown, kind_from_u8, policy_from_u8}
use corsa_bind.Client.ContentMapper.Definition.{MappedDiagnosticDirective}
use corsa_bind.Client.ContentMapper.Virtual.{SpanMap, new_span_map}
use corsa_bind.Client.SourceFile.Raw.{
  node_size, node_offset_data, node_data_type_mask, node_data_type_extended, node_data_payload_mask,
  no_structured_data, ext_source_file_size, refused, get_range, read_u32, checked_add,
}
use corsa_bind.Client.SourceFile.Header.{
  Sections, read_header, refuse_if, source_data, string_bytes,
}
use corsa_bind.Client.SourceFile.Cursor.{
  MsgpackCursor, CursorRead, new_cursor, u32_max, array_len, uint, string, read_each,
}

pub record PayloadReader : Type 0 where
  pub payload : Bytes
  pub protocol_version : ℕ
  pub sections : Sections

unfoldable pub new_reader : Bytes → Result PayloadReader
new_reader payload = read_header payload >>= λ header. ok (record {
  payload = payload;
  protocol_version = header.metadata.protocol_version;
  sections = header.sections;
})

unfoldable pub source_file_extended_data : PayloadReader → Result Bytes
source_file_extended_data r =
    if r.protocol_version == 9
    then source_data r.payload r.sections.nodes r.sections.extended_data r.sections.structured_data
    else (let root = r.sections.nodes + node_size in
        refuse_if (ltb (length r.payload) (root + node_size))
          (refused "encoded source file has no root node record at byte {root}" (root ∷ []))
        >>= λ there. read_u32 r.payload (root + node_offset_data) >>= λ data_word.
            refuse_if (not (bit_and data_word node_data_type_mask == node_data_type_extended)) (
              refused
                "encoded root node does not carry source file extended data (node data {data:#010x})"
                (data_word ∷ []))
            >>= λ is_extended.
                let start = r.sections.extended_data + bit_and data_word node_data_payload_mask in
                let end = start + ext_source_file_size in
                ok_or (get_range r.payload start end) (
                  refused "source file extended data at {start}..{end} is outside the payload"
                    (start ∷ end ∷ [])))

unfoldable pub string_at : PayloadReader → ℕ → Result Bytes
string_at r index =
    if r.protocol_version == 9
    then string_bytes r.payload r.sections.string_offsets r.sections.string_data
        r.sections.extended_data index
    else (let entry = r.sections.string_offsets + index * 4 in
        read_u32 r.payload entry >>= λ low. read_u32 r.payload (entry + 4) >>= λ high.
        let start = r.sections.string_data + low in
        let end = r.sections.string_data + high in
        ok_or
          (get_range r.payload start (max end start) and_then λ bytes.
            if leb end r.sections.extended_data then some bytes else none)
          (refused "string {index} spans {start}..{end}, outside the string data section"
            (index ∷ start ∷ end ∷ [])))

unfoldable pub optional_string : PayloadReader → ℕ → Result (Option Bytes)
unfolding string_at
optional_string r index =
    if index == no_structured_data then ok none else string_at r index >>= λ bytes. ok (some bytes)

unfoldable pub structured : PayloadReader → ℕ → Result (Option MsgpackCursor)
structured r offset =
    if offset == no_structured_data
    then ok none
    else (if r.protocol_version == 9
        then ok_or (checked_add r.sections.structured_data offset)
            (refused "version-9 structured-data offset overflow" [])
        else ok (r.sections.structured_data + offset))
      >>= λ start.
          ok_or (get_range r.payload start r.sections.nodes) (
            refused "structured data at {start} is outside the structured data section"
              (start ∷ []))
          >>= λ bytes. ok (some (new_cursor bytes))

-- `saturating_add` of a u32.
abbrev pub saturating_add : ℕ → ℕ → ℕ
saturating_add a b = min (a + b) u32_max

-- `u8::try_from(code).unwrap_or(u8::MAX)`
abbrev pub u8_or_max : ℕ → ℕ
u8_or_max code = if ltb code 256 then code else 255

abbrev pub known_or_refused : {A : Type 0} → TryFrom A → Result A
known_or_refused (known a) = ok a
known_or_refused (unknown code) = err (refused "{error}" (code ∷ []))

abbrev pub features_of : ℕ → MsgpackCursor → CursorRead ℕ
features_of fields c = if fields == 6 then uint c else ok (all_features, c)

-- The body of the loop of `span_map`.
unfoldable pub read_segment : MsgpackCursor → CursorRead SpanMapSegment
read_segment c = array_len c >>= λ (fields, c1).
    refuse_if (not (leb 5 fields && leb fields 6))
      (refused "span map segment has {fields} fields, expected 5 or 6" (fields ∷ []))
    >>= λ sized. uint c1 >>= λ (virtual_start, c2). uint c2 >>= λ (virtual_length, c3).
        uint c3 >>= λ (original_start, c4). uint c4 >>= λ (original_length, c5).
        uint c5 >>= λ (code, c6). known_or_refused (kind_from_u8 (u8_or_max code)) >>= λ kind.
        features_of fields c6 >>= λ (features, c7). ok (
          record {
            virtual_start = virtual_start;
            virtual_end = saturating_add virtual_start virtual_length;
            original_start = original_start;
            original_end = saturating_add original_start original_length;
            kind = kind;
            features = features;
          },
          c7,
        )

-- The three readers of structured data: an array whose elements `body` reads, if there is any.
abbrev pub read_array :
    {A : Type 0} → (MsgpackCursor → CursorRead A) → Option MsgpackCursor → Result (List A)
read_array body none = ok []
read_array body (some c) =
    array_len c >>= λ (count, after). read_each body count after >>= λ (values, end). ok values

unfoldable pub span_map : PayloadReader → ℕ → Result SpanMap
unfolding read_segment structured
span_map r offset = structured r offset >>= λ cursor.
    read_array read_segment cursor >>= λ segments. ok (new_span_map segments)

-- The body of the loop of `diagnostic_directives`.
unfoldable pub read_directive : MsgpackCursor → CursorRead MappedDiagnosticDirective
read_directive c = array_len c >>= λ (fields, c1).
    refuse_if (not (fields == 6))
      (refused "diagnostic directive has {fields} fields, expected 6" (fields ∷ []))
    >>= λ sized. uint c1 >>= λ (original_start, c2). uint c2 >>= λ (original_length, c3).
        uint c3 >>= λ (virtual_start, c4). uint c4 >>= λ (virtual_length, c5).
        uint c5 >>= λ (code, c6). known_or_refused (policy_from_u8 (u8_or_max code)) >>= λ policy.
        uint c6 >>= λ (unused_code, c7). ok (
          record {
            original_range =
                new_range original_start (saturating_add original_start original_length);
            virtual_range = new_range virtual_start (saturating_add virtual_start virtual_length);
            policy = policy;
            unused_code = unused_code;
          },
          c7,
        )

unfoldable pub diagnostic_directives : PayloadReader → ℕ → Result (List MappedDiagnosticDirective)
unfolding read_directive structured
diagnostic_directives r offset = structured r offset >>= λ cursor. read_array read_directive cursor

unfoldable pub string_array : PayloadReader → ℕ → Result (List Bytes)
unfolding structured
string_array r offset = structured r offset >>= λ cursor. read_array string cursor
