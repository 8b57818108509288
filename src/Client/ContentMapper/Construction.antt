-- ===== src/Client/ContentMapper/Construction.antt =====
-- The span map that `SpanMap::new` of content_mapper.rs makes, and the codes that it travels in.
use corsa_bind.Common.{
  ℕ, zero, suc, ◌≡◌, refl, List, arith, IsSorted, sort_by-IsSorted, sort_by-Perm,
}
use mathlib.Core.List.{Perm}
use corsa_bind.Client.ContentMapper.Ranges.{SpanMapFidelity}
use corsa_bind.Client.ContentMapper.Segments.{SpanMapKind, SpanMapSegment}
use corsa_bind.Client.ContentMapper.Codes.{
  TryFrom, known, unknown, DiagnosticDirectivePolicy, u8_from_kind, kind_from_u8, u8_from_fidelity,
  fidelity_from_u8, u8_from_policy, policy_from_u8,
}
use corsa_bind.Client.ContentMapper.Virtual.{by_virtual_start, new_span_map}

-- A new span map has the segments that it was made of, as often, and by their virtual start.
pub new_span_map-IsSorted :
    (segments : List SpanMapSegment)
    → IsSorted by_virtual_start (new_span_map segments) × Perm (new_span_map segments) segments
unfolding new_span_map
new_span_map-IsSorted segments = (
  sort_by-IsSorted by_virtual_start (λ s t h. ground arith) (λ s t u h k. ground arith) segments,
  sort_by-Perm by_virtual_start segments,
)

kinds_known : (k : SpanMapKind) → kind_from_u8 (u8_from_kind k) ≡ known k
unfolding kind_from_u8 u8_from_kind
kinds_known SpanMapKind.verbatim = refl
kinds_known SpanMapKind.atom = refl
kinds_known SpanMapKind.alias = refl

fidelities_known : (f : SpanMapFidelity) → fidelity_from_u8 (u8_from_fidelity f) ≡ known f
unfolding fidelity_from_u8 u8_from_fidelity
fidelities_known SpanMapFidelity.exact = refl
fidelities_known SpanMapFidelity.atom = refl
fidelities_known SpanMapFidelity.approximate = refl
fidelities_known SpanMapFidelity.none = refl

policies_known : (p : DiagnosticDirectivePolicy) → policy_from_u8 (u8_from_policy p) ≡ known p
unfolding policy_from_u8 u8_from_policy
policies_known DiagnosticDirectivePolicy.ignore = refl
policies_known DiagnosticDirectivePolicy.expect = refl

-- A code that is read as a value is the code of that value, for kinds, fidelities and policies.
abbrev Reads : {A : Type 0} → (A → ℕ) → ℕ → TryFrom A → Type 0
Reads code n (known a) = code a ≡ n
Reads code n (unknown m) = m ≡ n

kind_Reads : (n : ℕ) → Reads u8_from_kind n (kind_from_u8 n)
unfolding u8_from_kind kind_from_u8
kind_Reads zero = refl
kind_Reads (suc zero) = refl
kind_Reads (suc (suc zero)) = refl
kind_Reads (suc (suc (suc n))) = refl

fidelity_Reads : (n : ℕ) → Reads u8_from_fidelity n (fidelity_from_u8 n)
unfolding u8_from_fidelity fidelity_from_u8
fidelity_Reads zero = refl
fidelity_Reads (suc zero) = refl
fidelity_Reads (suc (suc zero)) = refl
fidelity_Reads (suc (suc (suc zero))) = refl
fidelity_Reads (suc (suc (suc (suc n)))) = refl

policy_Reads : (n : ℕ) → Reads u8_from_policy n (policy_from_u8 n)
unfolding u8_from_policy policy_from_u8
policy_Reads zero = refl
policy_Reads (suc zero) = refl
policy_Reads (suc (suc n)) = refl

-- Each kind, fidelity and policy is read back from its code. A code that is not read as one is
-- reported, and one that is read is the code of what it was read as.
pub codes_decode :
    ((k : SpanMapKind) → kind_from_u8 (u8_from_kind k) ≡ known k)
    × ((f : SpanMapFidelity) → fidelity_from_u8 (u8_from_fidelity f) ≡ known f)
    × ((p : DiagnosticDirectivePolicy) → policy_from_u8 (u8_from_policy p) ≡ known p)
    × ((n : ℕ) → Reads u8_from_kind n (kind_from_u8 n))
    × ((n : ℕ) → Reads u8_from_fidelity n (fidelity_from_u8 n))
    × ((n : ℕ) → Reads u8_from_policy n (policy_from_u8 n))
codes_decode =
    (kinds_known, fidelities_known, policies_known, kind_Reads, fidelity_Reads, policy_Reads)
