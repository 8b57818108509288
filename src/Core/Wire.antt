-- ===== src/Core/Wire.antt =====
-- src/core/corsa_core/src/rpc.rs, and the message types of src/core/corsa_jsonrpc/src/jsonrpc
-- (id.rs, message.rs). An `i64` is its 64-bit pattern: a number below 2 ^ 64.
use corsa_bind.Common.{
  ℕ, String, Bool, true, false, ◌≡◌, ◌↔◌, Option, arith, Eq, ◌==◌, nat_beq_iff, string_eq, nat_eq,
}
use corsa_bind.Core.Text.{Text}
use corsa_bind.Core.Value.{Value}

pub data RequestId : Type 0 where
  integer : ℕ → RequestId
  string : String → RequestId

abbrev pub same_id : RequestId → RequestId → Bool
same_id (integer a) (integer b) = a == b
same_id (string a) (string b) = a == b
same_id _ _ = false

pub same_id_iff : (a b : RequestId) → (same_id a b ≡ true) ↔ (a ≡ b)
same_id_iff (integer a) (integer b) = ground (arith, nat_beq_iff a b)
same_id_iff (string a) (string b) = ground (arith, string_eq.beq_iff a b)
same_id_iff (integer a) (string b) = ground arith
same_id_iff (string a) (integer b) = ground arith

instance abbrev pub id_eq : Eq RequestId
id_eq = record { beq = same_id; beq_iff = same_id_iff }

-- `data` is a reserved word: the field is `payload`.
pub record RpcResponseError : Type 0 where
  pub code : ℕ
  pub message : Text
  pub payload : Option Value

pub record RawMessage : Type 0 where
  pub jsonrpc : String
  pub id : Option RequestId
  pub method : Option String
  pub params : Option Value
  pub result : Option Value
  pub error : Option RpcResponseError
