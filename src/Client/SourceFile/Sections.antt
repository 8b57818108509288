-- ===== src/Client/SourceFile/Sections.antt =====
-- What header.rs checks of a payload's header before it gives the header.
use corsa_bind.Common.{
  ℕ, ◌≤◌, ◌==◌, nat_eq, ◌≡◌, arith, Bytes, false, not, ltb, length, get_elem?, if◌then◌else◌,
}
use corsa_bind.Core.Error.{ok, ok_or}
use corsa_bind.Client.SourceFile.Raw.{read_u32}
use corsa_bind.Client.SourceFile.Header.{
  Header, Sections, read_header, read_sections, read_v9, refuse_if, in_order, header_size_of,
  legacy_header,
}
use corsa_bind.Client.SourceFile.Gives.{Gives, ok-Gives, >>=-Gives, then-Gives, refuse_if-Gives}

-- The sections stand one behind the other, inside the payload.
pub record AreBounded (s : Sections) (len : ℕ) : Type 0 where
  pub offsets_le : s.string_offsets ≤ s.string_data
  pub strings_le : s.string_data ≤ s.extended_data
  pub extended_le : s.extended_data ≤ s.structured_data
  pub structured_le : s.structured_data ≤ s.nodes
  pub nodes_le : s.nodes ≤ len

in_order-AreBounded : (s : Sections) (len : ℕ) → not (in_order s len) ≡ false → AreBounded s len
in_order-AreBounded s len h = record {
  offsets_le = ground arith;
  strings_le = ground arith;
  extended_le = ground arith;
  structured_le = ground arith;
  nodes_le = ground arith;
}

read_sections-Gives :
    (payload : Bytes) → Gives (λ s. AreBounded s (length payload)) (read_sections payload)
unfolding read_sections
read_sections-Gives payload =
    let P : Sections → Type 0 = λ s. AreBounded s (length payload) in
    then-Gives P (read_u32 payload 24) _ (λ a. then-Gives P (read_u32 payload 28) _ (λ b.
      then-Gives P (read_u32 payload 32) _ (λ c. then-Gives P (read_u32 payload 36) _ (λ d.
        then-Gives P (read_u32 payload 40) _ (λ e.
          let s : Sections = record {
            string_offsets = a;
            string_data = b;
            extended_data = c;
            structured_data = d;
            nodes = e;
          } in
          >>=-Gives (λ t. not (in_order s (length payload)) ≡ false) P _ _
            (refuse_if-Gives (not (in_order s (length payload))) _)
            (λ t h. ok-Gives P s (in_order-AreBounded s (length payload) h)))))))

-- A payload whose header is read holds the fixed header of 44 bytes, and its sections stand in order
-- inside it: string offsets, string data, extended data, structured data, nodes.
pub read_header-AreBounded :
    (payload : Bytes) (header : Header)
    → read_header payload ≡ ok header
    → (44 ≤ length payload) × AreBounded header.sections (length payload)
unfolding read_header
read_header-AreBounded payload header h =
    let P : Header → Type 0 =
      λ hd. (44 ≤ length payload) × AreBounded hd.sections (length payload) in
    >>=-Gives (λ t. ltb (length payload) 44 ≡ false) P _ _
      (refuse_if-Gives (ltb (length payload) 44) _)
      (λ t short.
        let long : 44 ≤ length payload = ground arith in
        then-Gives P (ok_or (get_elem? payload 3) _) _ (λ version.
          then-Gives P (header_size_of version) _ (λ size.
            then-Gives P (refuse_if (ltb (length payload) size) _) _ (λ whole.
              >>=-Gives (λ s. AreBounded s (length payload)) P (read_sections payload) _
                (read_sections-Gives payload)
                (λ s bounded.
                  then-Gives P
                    (if version == 9 then read_v9 payload s size else ok (legacy_header version)) _
                    (λ metadata. ok-Gives P _ (long, bounded)))))))
      header h
