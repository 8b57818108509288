-- ===== src/Rpc/Frame/Decimal/RoundTrip.antt =====
-- What `append_usize` writes, `parse_ascii_usize` reads back; and what the reader accepts.
use corsa_bind.Common.{
  ℕ, zero, suc, ◌+◌, ◌-◌, ◌*◌, ◌/◌, ◌%◌, ◌^◌, ◌≤◌, ◌<◌, some, [], ◌∷◌, ◌++◌, Bytes, All, All-append,
  ◌≡◌, refl, inl, inr, sym, ap, ◌∙◌, arith, length, length-append, append-nil, append_assoc,
  Bool-cases, ◌==◌, nat_eq, ◌≢◌, ◌↔◌,
}
use corsa_bind.Core.Error.{ok}
use corsa_bind.Rpc.Frame.Decimal.{usize_mod, digits, append_usize, parse_digits, parse_ascii_usize}
use mathlib.Core.List.{concat-ne-nil}
use native.Mathlib.Nat.{pow-suc}

abbrev pub IsDigit : ℕ → Type 0
IsDigit c = (b'0' ≤ c) × (c ≤ b'9')

-- The number that a row of digits stands for, after the digits of `value`.
pub value_of : ℕ → Bytes → ℕ
value_of value [] = value
value_of value (c ∷ cs) = value_of (value * 10 + (c - b'0')) cs

value_of_mono : (v : ℕ) (cs : Bytes) → v ≤ value_of v cs
unfolding value_of
value_of_mono v [] = omega arith
value_of_mono v (c ∷ cs) = omega (arith, value_of_mono (v * 10 + (c - b'0')) cs)

-- Digits whose value fits are read exactly.
parse_digits-value_of :
    (cs : Bytes) (v : ℕ)
    → All IsDigit cs
    → value_of v cs < usize_mod
    → parse_digits cs v ≡ ok (value_of v cs)
unfolding parse_digits value_of
parse_digits-value_of [] v d h = refl
parse_digits-value_of (c ∷ cs) v d h = ground (
  arith,
  value_of_mono (v * 10 + (c - b'0')) cs,
  parse_digits-value_of cs (v * 10 + (c - b'0')) d.1 h,
)

-- And nothing else is.
parse_digits-eq-ok :
    (cs : Bytes) (v n : ℕ)
    → v < usize_mod
    → parse_digits cs v ≡ ok n
    → All IsDigit cs × (value_of v cs ≡ n) × (n < usize_mod)
unfolding parse_digits value_of
parse_digits-eq-ok [] v n b h = ground arith
parse_digits-eq-ok (c ∷ cs) v n b h = ground (arith, parse_digits-eq-ok cs (v * 10 + (c - b'0')) n)

value_of-append : (v : ℕ) (xs ys : Bytes) → value_of v (xs ++ ys) ≡ value_of (value_of v xs) ys
unfolding value_of
value_of-append v [] ys = refl
value_of-append v (x ∷ xs) ys = value_of-append (v * 10 + (x - b'0')) xs ys

-- The row of digits that stands for a number.
pub record Denotes (v : ℕ) (ds : Bytes) : Type 0 where
  pub all_digits : All IsDigit ds
  pub value : value_of 0 ds ≡ v

Denotes-concat : (v : ℕ) (ds : Bytes) → Denotes (v / 10) ds → Denotes v (ds ++ (b'0' + v % 10) ∷ [])
unfolding value_of
Denotes-concat v ds d = record {
  all_digits = All-append IsDigit ds ((b'0' + v % 10) ∷ []) d.all_digits (omega arith);
  value = value_of-append 0 ds ((b'0' + v % 10) ∷ []) ∙ (rw d.value (omega arith));
}

-- A number of at most `room` digits fits the array.
digits_total :
    (room v : ℕ) (out : Bytes)
    → v < 10 ^ room
    → (ds : Bytes) × (digits room v out ≡ some (ds ++ out))
      × Denotes v ds
      × (length ds ≤ room)
      × (v ≢ 0 → ds ≢ [])
unfolding digits value_of
digits_total zero v out h = (
  [],
  ground arith,
  record { all_digits = tt; value = omega arith },
  omega arith,
  λ n. absurd (n (omega arith)),
)
digits_total (suc room) v out h = elim (Bool-cases (v == 0)) [
  | inl z ↦ (
    [],
    ground arith,
    record { all_digits = tt; value = ground arith },
    omega arith,
    λ n. absurd (n (ground arith)),
  )
  | inr nz ↦
      let (ds, e, d, l, _) =
        digits_total room (v / 10) ((b'0' + v % 10) ∷ out) (omega (arith, pow-suc 10 room)) in
      (
        ds ++ (b'0' + v % 10) ∷ [],
        rw nz (e ∙ ap some (sym (append_assoc ds ((b'0' + v % 10) ∷ []) out))),
        Denotes-concat v ds d,
        omega (arith, length-append ds ((b'0' + v % 10) ∷ [])),
        λ _. concat-ne-nil (b'0' + v % 10) ds,
      )
]

-- For every 64-bit number the array of twenty digits is large enough, and what is appended is a row
-- of decimal digits that stands for the number.
pub append_usize_total :
    (buffer : Bytes) (v : ℕ)
    → v < usize_mod
    → (ds : Bytes) × (append_usize buffer v ≡ some (buffer ++ ds))
      × Denotes v ds
      × (length ds ≤ 20)
      × (ds ≢ [])
unfolding append_usize value_of
append_usize_total buffer v h = elim (Bool-cases (v == 0)) [
  | inl z ↦ (
    b'0' ∷ [],
    rw z,
    record { all_digits = omega arith; value = ground arith },
    omega arith,
    λ e. cc,
  )
  | inr nz ↦
      let (ds, e, d, l, ne) = digits_total 20 v [] (omega arith) in
      (ds, rw (nz, e, append-nil) refl, d, l, ne (ground arith))
]

-- A Content-Length value is accepted exactly when it is a non-empty row of decimal digits whose
-- number fits 64 bits, and then that number is the result.
pub parse_ascii_usize_iff :
    (bs : Bytes) (n : ℕ)
    → (parse_ascii_usize bs ≡ ok n) ↔ ((bs ≢ []) × Denotes n bs × (n < usize_mod))
unfolding parse_ascii_usize
parse_ascii_usize_iff [] n = (λ e. cc, λ h. absurd (h.0 refl))
parse_ascii_usize_iff (b ∷ bs) n = (
  λ e.
      let (d, v, lt) = parse_digits-eq-ok (b ∷ bs) 0 n (omega arith) e in
      (λ x. cc, record { all_digits = d; value = v }, lt),
  λ (ne, d, lt). parse_digits-value_of (b ∷ bs) 0 d.all_digits (rw d.value lt) ∙ ap ok d.value,
)
