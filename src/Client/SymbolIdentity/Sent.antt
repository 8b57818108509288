-- ===== src/Client/SymbolIdentity/Sent.antt =====
-- A symbol that was adopted from a full reference is sent back as that reference.
use Prim.Native.String.{◌++◌}
use corsa_bind.Common.{ℕ, ◌≡◌, Option, some, String, string_eq}
use corsa_bind.Core.Value.{Value, number, string, object, field, end}
use corsa_bind.Client.SymbolIdentity.{JsonTexts, u64_text}

module _ (json : JsonTexts) where
  -- The members of a handle, and its text without white space, which begins with a brace.
  abbrev pub handle_value : ℕ → String → Value
  handle_value id node_id =
      object (field "file" (string node_id) (field "id" (number (u64_text id)) end))

  -- What the JSON library documents, at one handle: a value is printed without white space, the text that it
  -- prints is parsed to the value again, and a decimal text is the number that it shows.
  pub record Documented (id : ℕ) (node_id : String) : Type 0 where
    pub compact :
        json.to_string (handle_value id node_id)
        ≡ "{\"file\":"
          ++ (json.to_string (string node_id)
              ++ (",\"id\":" ++ (json.to_string (number (u64_text id)) ++ "}")))
    pub plain_number : json.to_string (number (u64_text id)) ≡ u64_text id
    pub parsed :
        json.from_str (json.to_string (handle_value id node_id)) ≡ some (handle_value id node_id)
    pub shown : json.number_u64 (u64_text id) ≡ some id
