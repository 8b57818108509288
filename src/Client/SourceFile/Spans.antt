-- ===== src/Client/SourceFile/Spans.antt =====
-- The span maps that source_file.rs decodes are never inverted, so that no map through them panics.
use mathlib.Core.Option.{some-injective}
use corsa_bind.Common.{
  ℕ, zero, suc, ◌≤◌, ◌==◌, nat_eq, ◌≡◌, subst, arith, Bytes, not, ◌&&◌, Option, some, none, [], ◌∷◌,
  All, All-sort_by, leb,
}
use corsa_bind.Core.Error.{ok}
use corsa_bind.Client.ContentMapper.Ranges.{TextRange}
use corsa_bind.Client.ContentMapper.Segments.{IsOrdered}
use corsa_bind.Client.ContentMapper.Codes.{kind_from_u8}
use corsa_bind.Client.ContentMapper.Virtual.{SpanMap, by_virtual_start, new_span_map, map_range}
use corsa_bind.Client.ContentMapper.Virtual.Spans.{Maps, map_range-Maps}
use corsa_bind.Client.SourceFile.Gives.{Gives, ok-Gives, err-Gives, >>=-Gives, then-Gives, if-Gives}
use corsa_bind.Client.SourceFile.Header.{refuse_if}
use corsa_bind.Client.SourceFile.Cursor.{
  MsgpackCursor, CursorRead, u32_max, marker, take_bytes, be_uint, array_len, uint_of, uint,
  read_each,
}
use corsa_bind.Client.SourceFile.Reader.{
  PayloadReader, saturating_add, u8_or_max, known_or_refused, features_of, read_segment, read_array,
  structured, span_map, diagnostic_directives, string_array, optional_string, string_at, new_reader,
  source_file_extended_data,
}
use corsa_bind.Client.SourceFile.Raw.{
  no_structured_data, ext_text, ext_file_name, ext_path, ext_language_variant, ext_script_kind,
  ext_original_text, ext_span_map, ext_supplemental_file_names, ext_canonical_file_name,
  ext_content_mapper, ext_virtual_file_name, ext_diagnostic_directives, read_u32,
}
use corsa_bind.Client.SourceFile.Decode.{
  ContentMapping, EncodedSourceFile, read_mapping, read_content_mapping, decode, span_map_of,
  spans_of,
}

-- What is read satisfies `P`, wherever the cursor is behind it.
abbrev pub Read {ℓ} : {A : Type 0} → (A → Type ℓ) → A × MsgpackCursor → Type ℓ
Read P (a, c) = P a

pub read_each-Gives :
    {A : Type 0} (P : A → Type 0) (body : MsgpackCursor → CursorRead A)
    → ((c : MsgpackCursor) → Gives (Read P) (body c))
    → (count : ℕ) (c : MsgpackCursor) → Gives (Read (All P)) (read_each body count c)
unfolding read_each
read_each-Gives P body f zero c = ok-Gives (Read (All P)) ([], c) tt
read_each-Gives P body f (suc count) c =
    >>=-Gives (Read P) (Read (All P)) (body c) _ (f c) (λ (a, after) p.
      >>=-Gives (Read (All P)) (Read (All P)) (read_each body count after) _
        (read_each-Gives P body f count after)
        (λ (rest, end) ps. ok-Gives (Read (All P)) (a ∷ rest, end) (p, ps)))

abbrev IsU32 : ℕ → Type 0
IsU32 n = n ≤ u32_max

be_uint-Gives : (c : MsgpackCursor) (width : ℕ) → Gives (Read IsU32) (be_uint c width)
unfolding be_uint
be_uint-Gives c width =
    then-Gives (Read IsU32) (take_bytes c width) _
      (λ (read, after). ok-Gives (Read IsU32) _ ground arith)

uint_of-Gives : (m : ℕ) (c : MsgpackCursor) → Gives (Read IsU32) (uint_of m c)
uint_of-Gives m c =
    if-Gives (Read IsU32) (leb m 0x7f) _ _
      (λ h. ok-Gives (Read IsU32) (m, c) (let le : m ≤ 0x7f = ground arith in omega arith))
      (if-Gives (Read IsU32) (m == 0xcc) _ _ (λ h. be_uint-Gives c 1)
        (if-Gives (Read IsU32) (m == 0xcd) _ _ (λ h. be_uint-Gives c 2)
          (if-Gives (Read IsU32) (m == 0xce) _ _ (λ h. be_uint-Gives c 4)
            (if-Gives (Read IsU32) (m == 0xcf) _ _ (λ h. be_uint-Gives c 8)
              (err-Gives (Read IsU32) _)))))

-- A number that is read is one of a u32: a wider one is cut to the greatest.
pub uint-Gives : (c : MsgpackCursor) → Gives (Read IsU32) (uint c)
unfolding uint
uint-Gives c = then-Gives (Read IsU32) (marker c) _ (λ (m, after). uint_of-Gives m after)

saturating_add-le : (a b : ℕ) → a ≤ u32_max → a ≤ saturating_add a b
saturating_add-le a b h = ground arith

pub read_segment-Gives : (c : MsgpackCursor) → Gives (Read IsOrdered) (read_segment c)
unfolding read_segment
read_segment-Gives c = then-Gives (Read IsOrdered) (array_len c) _ (λ (fields, c1).
    then-Gives (Read IsOrdered) (refuse_if (not (leb 5 fields && leb fields 6)) _) _ (λ sized.
      >>=-Gives (Read IsU32) (Read IsOrdered) (uint c1) _ (uint-Gives c1) (λ (virtual_start, c2) v.
        then-Gives (Read IsOrdered) (uint c2) _ (λ (virtual_length, c3).
          >>=-Gives (Read IsU32) (Read IsOrdered) (uint c3) _ (uint-Gives c3)
            (λ (original_start, c4) o.
              then-Gives (Read IsOrdered) (uint c4) _ (λ (original_length, c5).
                then-Gives (Read IsOrdered) (uint c5) _ (λ (code, c6).
                  then-Gives (Read IsOrdered) (known_or_refused (kind_from_u8 (u8_or_max code))) _
                    (λ kind.
                      then-Gives (Read IsOrdered) (features_of fields c6) _ (λ (features, c7).
                        ok-Gives (Read IsOrdered) _ (record {
                          virtual_le = saturating_add-le virtual_start virtual_length v;
                          original_le = saturating_add-le original_start original_length o;
                        }))))))))))

read_array-Gives :
    {A : Type 0} (P : A → Type 0) (body : MsgpackCursor → CursorRead A)
    → ((c : MsgpackCursor) → Gives (Read P) (body c))
    → (cursor : Option MsgpackCursor) → Gives (All P) (read_array body cursor)
read_array-Gives P body f none = ok-Gives (All P) [] tt
read_array-Gives P body f (some c) = then-Gives (All P) (array_len c) _ (λ (count, after).
    >>=-Gives (Read (All P)) (All P) (read_each body count after) _
      (read_each-Gives P body f count after) (λ (values, end) ps. ok-Gives (All P) values ps))

-- The segments of every span map that a payload holds are not inverted.
pub span_map-Gives : (r : PayloadReader) (offset : ℕ) → Gives (All IsOrdered) (span_map r offset)
unfolding span_map new_span_map
span_map-Gives r offset = then-Gives (All IsOrdered) (structured r offset) _ (λ cursor.
    >>=-Gives (All IsOrdered) (All IsOrdered) (read_array read_segment cursor) _
      (read_array-Gives IsOrdered read_segment read_segment-Gives cursor)
      (λ segments ps.
        ok-Gives (All IsOrdered) _ (All-sort_by by_virtual_start IsOrdered segments ps)))

-- A source file whose content mapping, if it has one, has no inverted segment.
abbrev MapsOrdered : Option ContentMapping → Type 0
MapsOrdered none = Unit
MapsOrdered (some mapping) = All IsOrdered mapping.mapped_spans

read_mapping-Gives :
    (r : PayloadReader) (extended : Bytes) (offset index : ℕ)
    → Gives (λ mapping. MapsOrdered (some mapping)) (read_mapping r extended offset index)
unfolding read_mapping
read_mapping-Gives r extended offset index =
    let P : ContentMapping → Type 0 = λ mapping. MapsOrdered (some mapping) in
    then-Gives P (optional_string r index) _ (λ content_mapper.
      then-Gives P (read_u32 extended ext_virtual_file_name) _ (λ virtual_index.
        then-Gives P (optional_string r virtual_index) _ (λ virtual_file_name.
          >>=-Gives (All IsOrdered) P (span_map r offset) _ (span_map-Gives r offset)
            (λ spans ordered.
              then-Gives P (read_u32 extended ext_diagnostic_directives) _ (λ directives_offset.
                then-Gives P (diagnostic_directives r directives_offset) _ (λ directives.
                  then-Gives P (read_u32 extended ext_supplemental_file_names) _ (λ names_offset.
                    then-Gives P (string_array r names_offset) _ (λ names.
                      then-Gives P (read_u32 extended ext_canonical_file_name) _ (λ canonical_index.
                        then-Gives P (optional_string r canonical_index) _
                          (λ canonical. ok-Gives P _ ordered))))))))))

read_content_mapping-Gives :
    (r : PayloadReader) (extended : Bytes) → Gives MapsOrdered (read_content_mapping r extended)
unfolding read_content_mapping
read_content_mapping-Gives r extended =
    then-Gives MapsOrdered (read_u32 extended ext_span_map) _ (λ offset.
      then-Gives MapsOrdered (read_u32 extended ext_content_mapper) _ (λ index.
        if-Gives MapsOrdered ((offset == no_structured_data) && (index == no_structured_data)) _ _
          (λ h. ok-Gives MapsOrdered none tt)
          (>>=-Gives (λ mapping. MapsOrdered (some mapping)) MapsOrdered _ _
            (read_mapping-Gives r extended offset index)
            (λ mapping ordered. ok-Gives MapsOrdered (some mapping) ordered))))

decode-Gives : (payload : Bytes) → Gives (λ file. MapsOrdered file.content_mapping) (decode payload)
unfolding decode
decode-Gives payload =
    let P : EncodedSourceFile → Type 0 = λ file. MapsOrdered file.content_mapping in
    then-Gives P (new_reader payload) _ (λ r.
      then-Gives P (source_file_extended_data r) _ (λ extended.
        then-Gives P (read_u32 extended ext_text) _ (λ text_index.
          then-Gives P (read_u32 extended ext_original_text) _ (λ original_index.
            then-Gives P (string_at r text_index) _ (λ text. then-Gives P _ _ (λ original_text.
              >>=-Gives MapsOrdered P (read_content_mapping r extended) _
                (read_content_mapping-Gives r extended)
                (λ mapping ordered. then-Gives P (read_u32 extended ext_file_name) _ (λ name_index.
                  then-Gives P (string_at r name_index) _ (λ file_name.
                    then-Gives P (read_u32 extended ext_path) _ (λ path_index.
                      then-Gives P (string_at r path_index) _ (λ path.
                        then-Gives P (read_u32 extended ext_language_variant) _ (λ language_variant.
                          then-Gives P (read_u32 extended ext_script_kind) _
                            (λ script_kind. ok-Gives P _ ordered)))))))))))))

mapped-IsOrdered :
    (o : Option ContentMapping) (m : SpanMap)
    → spans_of o ≡ some m
    → MapsOrdered o
    → All IsOrdered m
mapped-IsOrdered none m h ordered = cc
mapped-IsOrdered (some mapping) m h ordered = subst (All IsOrdered) (some-injective _ _ h) ordered

-- Of a source file that is decoded from a payload, any sequence of bytes: its span map, if it has one, maps
-- every virtual range, also an inverted one, to an original range without a panic, and what a range is
-- mapped to is not inverted.
pub decode-map_range :
    (payload : Bytes) (file : EncodedSourceFile) (m : SpanMap)
    → decode payload ≡ ok file
    → span_map_of file ≡ some m
    → (range : TextRange) → Maps (map_range m range)
decode-map_range payload file m h g range =
    map_range-Maps m (mapped-IsOrdered file.content_mapping m g (decode-Gives payload file h)) range
