-- ===== src/Client/ContentMapper/Ranges.antt =====
-- src/core/corsa_client/src/api/content_mapper.rs: text ranges, and projections with their fidelity.
use corsa_bind.Common.{ℕ, ◌-◌, Bool, true, false, ltb, leb, if◌then◌else◌}

-- Offsets are in UTF-16 code units and below 2 ^ 32.
pub record TextRange : Type 0 where
  pub pos : ℕ
  pub end : ℕ

-- `end` is clamped up to `pos`.
unfoldable pub new_range : ℕ → ℕ → TextRange
new_range pos end = record { pos = pos; end = if ltb end pos then pos else end }

abbrev pub empty_range : ℕ → TextRange
empty_range position = record { pos = position; end = position }

-- `saturating_sub`
abbrev pub len_range : TextRange → ℕ
len_range range = range.end - range.pos

abbrev pub is_empty_range : TextRange → Bool
is_empty_range range = leb range.end range.pos

pub data SpanMapFidelity : Type 0 where
  exact atom approximate none : SpanMapFidelity

abbrev pub is_exact : SpanMapFidelity → Bool
is_exact exact = true
is_exact _ = false

abbrev pub is_single_segment : SpanMapFidelity → Bool
is_single_segment exact = true
is_single_segment atom = true
is_single_segment _ = false

abbrev pub is_none : SpanMapFidelity → Bool
is_none none = true
is_none _ = false

pub record MappedPosition : Type 0 where
  pub position : ℕ
  pub fidelity : SpanMapFidelity

pub record MappedRange : Type 0 where
  pub range : TextRange
  pub fidelity : SpanMapFidelity
