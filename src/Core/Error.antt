-- ===== src/Core/Error.antt =====
-- src/core/corsa_core/src/error.rs: the workspace's error type and its result.
use corsa_bind.Common.{ℕ, String, ◌≡◌, refl, Option, none, some, ◌⊎◌, inl, inr}
use corsa_bind.Core.Text.{Text, Arg}
use corsa_bind.Core.Wire.{RpcResponseError, RawMessage}
use mathlib.Core.List.{◌∷◌}

-- `std::io::ErrorKind`, as far as the source tells kinds apart.
pub data ErrorKind : Type 0 where
  unexpected_eof broken_pipe connection_reset other : ErrorKind

-- `std::io::Error`: its kind and its display text.
pub record IoError : Type 0 where
  pub kind : ErrorKind
  pub display : Text

-- `serde_json::Error` and `base64::DecodeError` are kept by their display texts, and an unexpected
-- message by the message whose debug text the source stores.
pub data CorsaError : Type 0 where
  io : IoError → CorsaError
  json : Text → CorsaError
  base64 : Text → CorsaError
  rpc : RpcResponseError → CorsaError
  protocol : Text → CorsaError
  unexpected_message : RawMessage → CorsaError
  invalid_handle : Text → CorsaError
  closed : String → CorsaError
  unsupported : String → CorsaError
  join : Text → CorsaError
  timeout : Text → CorsaError

abbrev pub clone_for_pending : CorsaError → CorsaError
clone_for_pending (io e) = io (record { kind = e.kind; display = e.display })
clone_for_pending (json t) = protocol t
clone_for_pending (base64 t) = protocol t
clone_for_pending (rpc e) = rpc e
clone_for_pending (protocol t) = protocol t
clone_for_pending (unexpected_message m) = unexpected_message m
clone_for_pending (invalid_handle t) = invalid_handle t
clone_for_pending (closed s) = closed s
clone_for_pending (unsupported s) = unsupported s
clone_for_pending (join t) = join t
clone_for_pending (timeout t) = timeout t

-- `CorsaError::timeout`; a duration is its number of milliseconds.
abbrev pub timed_out : Text → ℕ → CorsaError
timed_out operation ms =
    timeout (record { format = operation.format; args = Arg.num ms ∷ operation.args })

pub data Result {ℓ} (T : Type ℓ) : Type ℓ where
  ok : T → Result T
  err : CorsaError → Result T

infixl 5 ◌>>=◌
-- The `?` operator.
abbrev pub ◌>>=◌ {ℓ κ} : {T : Type ℓ} {U : Type κ} → Result T → (T → Result U) → Result U
err error >>= next = err error
ok value >>= next = next value

-- `ok_or`
abbrev pub ok_or {ℓ} : {A : Type ℓ} → Option A → CorsaError → Result A
ok_or none e = err e
ok_or (some a) e = ok a

pub Result-cases {ℓ} :
    {A : Type ℓ} (r : Result A) → ((a : A) × (r ≡ ok a)) ⊎ ((e : CorsaError) × (r ≡ err e))
Result-cases (ok a) = inl (a, refl)
Result-cases (err e) = inr (e, refl)

-- A chain that succeeds succeeds at both of its ends.
pub >>=-eq-ok {ℓ κ} :
    {T : Type ℓ} {U : Type κ} (first : Result T) (then : T → Result U) {u : U}
    → (first >>= then) ≡ ok u
    → (t : T) × (first ≡ ok t) × (then t ≡ ok u)
>>=-eq-ok (err error) then h = cc
>>=-eq-ok (ok t) then h = (t, refl, h)
