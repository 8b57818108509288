-- ===== src/Core/Value.antt =====
-- `serde_json::Value`, the JSON values that the transports carry. A number is kept as its text.
use corsa_bind.Common.{String, Bool, Option, none, some}

mutual
  pub data Value : Type 0 where
    null : Value
    boolean : Bool → Value
    number : String → Value
    string : String → Value
    array : Items → Value
    object : Fields → Value

  pub data Items : Type 0 where
    nil : Items
    cons : Value → Items → Items

  pub data Fields : Type 0 where
    end : Fields
    field : String → Value → Fields → Fields

-- `Value::as_str`
abbrev pub as_str : Value → Option String
as_str (string s) = some s
as_str _ = none

-- `unwrap_or(Value::Null)`
abbrev pub or_null : Option Value → Value
or_null none = null
or_null (some v) = v
