-- ===== src/Client/SymbolIdentity.antt =====
-- src/core/corsa_client/src/api/symbol_identity.rs: symbol handles, made of full references and sent back
-- as such. An object is the list of its fields in the order in which the source writes them. The JSON
-- library is a parameter (`JsonTexts`); the texts of handles are the source's own.
pub mod Sent
pub mod Tests
use Prim.Native.String.{◌++◌}
use corsa_bind.Common.{
  ◌%◌, ◌/◌, ltb, ℕ, zero, suc, ◌==◌, nat_eq, Bool, true, false, Option, some, none, String,
  string_eq, Eq, List, [], ◌∷◌, codes, if◌then◌else◌, ◌and_then◌,
}
use corsa_bind.Core.Error.{CorsaError, invalid_handle, protocol, Result, ok, err, ◌>>=◌, ok_or}
use corsa_bind.Core.Text.{Text, with_str}
use corsa_bind.Core.Value.{
  Value, Fields, null, boolean, number, string, array, object, field, end, as_str,
}
use corsa_bind.Client.FileMemo.{FileMemo, remember, get}

abbrev pub owner_kind_file : ℕ
owner_kind_file = 0

abbrev pub owner_kind_snapshot : ℕ
owner_kind_snapshot = 1

abbrev pub get_field : String → Fields → Option Value
get_field key end = none
get_field key (field k v fields) = if k == key then some v else get_field key fields

abbrev pub as_object : Value → Option Fields
as_object (object fields) = some fields
as_object _ = none

-- `value.get(key)`
abbrev pub get_value : String → Value → Option Value
get_value key value = as_object value and_then get_field key

abbrev pub Memo : Type 0
Memo = FileMemo String Value

-- The snapshot and the project of a request.
pub record RequestScope : Type 0 where
  pub snapshot : Option ℕ
  pub project : Option String

abbrev pub or_else : {A : Type 0} → Option A → Option A → Option A
or_else (some a) b = some a
or_else none b = b

abbrev pub unwrap_or_empty : Option String → String
unwrap_or_empty (some s) = s
unwrap_or_empty none = ""

abbrev pub starts_with_brace : String → Bool
starts_with_brace handle = elim (codes handle) [ [] ↦ false | c ∷ cs ↦ c == b'{' ]

-- What the source asks of the JSON library: `as_u64` of a number's text, `to_string` of a value and
-- `from_str`.
pub record JsonTexts : Type 0 where
  pub number_u64 : String → Option ℕ
  pub to_string : Value → String
  pub from_str : String → Option Value

-- A number below ten.
abbrev pub digit_text : ℕ → String
digit_text digit =
    if digit == 0
    then "0"
    else if digit == 1
    then "1"
    else if digit == 2
    then "2"
    else if digit == 3
    then "3"
    else if digit == 4
    then "4"
    else if digit == 5
    then "5"
    else if digit == 6
    then "6"
    else if digit == 7
    then "7"
    else if digit == 8
    then "8"
    else "9"

-- The decimal text of a number, with room for as many digits as the first argument and one.
unfoldable pub decimal : ℕ → ℕ → String
decimal zero n = digit_text (n % 10)
decimal (suc room) n =
    let front = decimal room (n / 10) in
    if ltb n 10 then digit_text n else front ++ digit_text (n % 10)

-- A `u64` as text, which has 20 digits at most.
abbrev pub u64_text : ℕ → String
u64_text n = decimal 19 n

unfoldable pub snapshot_handle : ℕ → Option ℕ → String
snapshot_handle id (some snapshot) =
    "{\"id\":" ++ (u64_text id ++ (",\"snapshot\":" ++ (u64_text snapshot ++ "}")))
snapshot_handle id none = "{\"id\":" ++ (u64_text id ++ "}")

module _ (json : JsonTexts) where
  unfoldable pub file_handle : ℕ → String → String
  file_handle id node_id =
      "{\"file\":" ++ (json.to_string (string node_id) ++ (",\"id\":" ++ (u64_text id ++ "}")))

  abbrev pub as_u64 : Value → Option ℕ
  as_u64 (number text) = json.number_u64 text
  as_u64 _ = none

  abbrev pub u64_field : String → Fields → Option ℕ
  u64_field key fields = get_field key fields and_then as_u64

  abbrev pub adopt_node : ℕ → Memo → Fields → Option String → Memo × Option String
  adopt_node id m descriptor none = (m, none)
  adopt_node id m descriptor (some node_id) =
      (remember node_id (object descriptor) m, some (file_handle id node_id))

  abbrev pub adopt_file : ℕ → Memo → Option Fields → Memo × Option String
  adopt_file id m none = (m, none)
  adopt_file id m (some descriptor) =
      adopt_node id m descriptor (get_field "nodeId" descriptor and_then as_str)

  abbrev pub adopt_owner : Fields → RequestScope → Memo → ℕ → ℕ → Memo × Option String
  adopt_owner reference scope m id kind =
      if kind == owner_kind_file
      then adopt_file id m (get_field "file" reference and_then as_object)
      else if kind == owner_kind_snapshot
      then (m, some (snapshot_handle id (or_else (u64_field "snapshot" reference) scope.snapshot)))
      else (m, none)

  abbrev pub adopt_with_kind : Fields → RequestScope → Memo → ℕ → Option ℕ → Memo × Option String
  adopt_with_kind reference scope m id none = (m, none)
  adopt_with_kind reference scope m id (some kind) = adopt_owner reference scope m id kind

  abbrev pub adopt_with_id : Fields → RequestScope → Memo → Option ℕ → Memo × Option String
  adopt_with_id reference scope m none = (m, none)
  adopt_with_id reference scope m (some id) =
      adopt_with_kind reference scope m id (u64_field "kind" reference)

  unfoldable pub adopt_reference : Fields → RequestScope → Memo → Memo × Option String
  adopt_reference reference scope m = adopt_with_id reference scope m (u64_field "id" reference)

  abbrev pub invalid : {A : Type 0} → String → Result A
  invalid handle = err (invalid_handle (with_str "{handle}" handle))

  abbrev pub file_reference : ℕ → Value → Value
  file_reference id descriptor = object (
      field "kind" (number (u64_text owner_kind_file))
        (field "file" descriptor (field "id" (number (u64_text id)) end)))

  abbrev pub snapshot_reference : ℕ → ℕ → String → Value
  snapshot_reference id snapshot project = object (
      field "kind" (number (u64_text owner_kind_snapshot)) (
        field "snapshot" (number (u64_text snapshot))
          (field "project" (string project) (field "id" (number (u64_text id)) end))))

  abbrev pub encode_file : String → ℕ → Memo × Option Value → Memo × Result Value
  encode_file handle id (m, none) = (
    m,
    err (
        protocol (
          with_str "symbol handle {handle} not found: symbol owner is unknown to this connection"
            handle)),
  )
  encode_file handle id (m, some descriptor) = (m, ok (file_reference id descriptor))

  abbrev pub encode_snapshot : String → ℕ → RequestScope → Option ℕ → Result Value
  encode_snapshot handle id scope none = invalid handle
  encode_snapshot handle id scope (some snapshot) =
      ok (snapshot_reference id snapshot (unwrap_or_empty scope.project))

  abbrev pub encode_owner :
      String → Value → RequestScope → Memo → ℕ → Option Value → Memo × Result Value
  encode_owner handle parsed scope m id (some (string node_id)) =
      encode_file handle id (get node_id m)
  encode_owner handle parsed scope m id (some _) = (m, invalid handle)
  encode_owner handle parsed scope m id none = (
    m,
    encode_snapshot handle id scope
        (or_else (get_value "snapshot" parsed and_then as_u64) scope.snapshot),
  )

  abbrev pub encode_with_id : String → Value → RequestScope → Memo → Option ℕ → Memo × Result Value
  encode_with_id handle parsed scope m none = (m, invalid handle)
  encode_with_id handle parsed scope m (some id) =
      encode_owner handle parsed scope m id (get_value "file" parsed)

  abbrev pub encode_parsed : String → RequestScope → Memo → Option Value → Memo × Result Value
  encode_parsed handle scope m none = (m, invalid handle)
  encode_parsed handle scope m (some parsed) =
      encode_with_id handle parsed scope m (get_value "id" parsed and_then as_u64)

  -- The value that takes the place of the one that is encoded.
  unfoldable pub encode_symbol : Value → RequestScope → Memo → Memo × Result Value
  unfolding get
  encode_symbol (string handle) scope m =
      if starts_with_brace handle
      then encode_parsed handle scope m (json.from_str handle)
      else (m, ok (string handle))
  encode_symbol value scope m = (m, ok value)
