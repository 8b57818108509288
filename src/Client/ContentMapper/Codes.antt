-- ===== src/Client/ContentMapper/Codes.antt =====
-- src/core/corsa_client/src/api/content_mapper.rs: the byte codes of kinds, fidelities and directive
-- policies.
use corsa_bind.Common.{ℕ, zero, suc, ◌≡◌, arith}
use corsa_bind.Client.ContentMapper.Ranges.{SpanMapFidelity}
use corsa_bind.Client.ContentMapper.Segments.{SpanMapKind}

-- The result of `try_from`: a value, or the code that is unknown (`UnknownSpanMapKind` and the like).
pub data TryFrom (A : Type 0) : Type 0 where
  known : A → TryFrom A
  unknown : ℕ → TryFrom A

pub data DiagnosticDirectivePolicy : Type 0 where
  ignore expect : DiagnosticDirectivePolicy

unfoldable pub u8_from_kind : SpanMapKind → ℕ
u8_from_kind SpanMapKind.verbatim = 0
u8_from_kind SpanMapKind.atom = 1
u8_from_kind SpanMapKind.alias = 2

unfoldable pub kind_from_u8 : ℕ → TryFrom SpanMapKind
kind_from_u8 zero = known SpanMapKind.verbatim
kind_from_u8 (suc zero) = known SpanMapKind.atom
kind_from_u8 (suc (suc zero)) = known SpanMapKind.alias
kind_from_u8 other = unknown other

unfoldable pub u8_from_fidelity : SpanMapFidelity → ℕ
u8_from_fidelity SpanMapFidelity.exact = 0
u8_from_fidelity SpanMapFidelity.atom = 1
u8_from_fidelity SpanMapFidelity.approximate = 2
u8_from_fidelity SpanMapFidelity.none = 3

unfoldable pub fidelity_from_u8 : ℕ → TryFrom SpanMapFidelity
fidelity_from_u8 zero = known SpanMapFidelity.exact
fidelity_from_u8 (suc zero) = known SpanMapFidelity.atom
fidelity_from_u8 (suc (suc zero)) = known SpanMapFidelity.approximate
fidelity_from_u8 (suc (suc (suc zero))) = known SpanMapFidelity.none
fidelity_from_u8 other = unknown other

unfoldable pub u8_from_policy : DiagnosticDirectivePolicy → ℕ
u8_from_policy ignore = 0
u8_from_policy expect = 1

unfoldable pub policy_from_u8 : ℕ → TryFrom DiagnosticDirectivePolicy
policy_from_u8 zero = known ignore
policy_from_u8 (suc zero) = known expect
policy_from_u8 other = unknown other

pub u8_from_fidelity-injective :
    (f g : SpanMapFidelity) → u8_from_fidelity f ≡ u8_from_fidelity g → f ≡ g
unfolding u8_from_fidelity
u8_from_fidelity-injective f g h = ground arith
