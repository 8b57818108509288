-- ===== src/Client/Handles/Pieces.antt =====
-- What `splitn` and `split` make of a handle.
use corsa_bind.Common.{
  ℕ, zero, suc, ◌==◌, nat_eq, nat_beq_iff, ◌≡◌, refl, inl, inr, false, List, [], ◌∷◌, ◌++◌,
  Bool-cases, All, ap, ◌∙◌, sym,
}
use corsa_bind.TypeText.Chars.{Chars}
use corsa_bind.Client.Handles.{prepend, split_dots, splitn_dots, join_dots}

-- The parts behind the first n - 1 as one.
abbrev pub regroup : ℕ → List Chars → List Chars
regroup zero parts = []
regroup (suc zero) parts = join_dots parts ∷ []
regroup (suc (suc n)) [] = []
regroup (suc (suc n)) (part ∷ []) = part ∷ []
regroup (suc (suc n)) (part ∷ other ∷ parts) = part ∷ regroup (suc n) (other ∷ parts)

split_dots_some : (text : Chars) → (p : Chars) × (ps : List Chars) × (split_dots text ≡ p ∷ ps)
unfolding split_dots
split_dots_some [] = ([], [], refl)
split_dots_some (c ∷ text) = elim (Bool-cases (c == b'.')) [
  | inl h ↦ ([], split_dots text, rw h refl)
  | inr h ↦ (let (p, ps, e) = split_dots_some text in (c ∷ p, ps, rw (h, e) refl))
]

join_dots-prepend :
    (c : ℕ) (p : Chars) (ps : List Chars) → join_dots (prepend c (p ∷ ps)) ≡ c ∷ join_dots (p ∷ ps)
join_dots-prepend c p [] = refl
join_dots-prepend c p (q ∷ ps) = refl

pub join_dots-split_dots : (text : Chars) → join_dots (split_dots text) ≡ text
unfolding split_dots
join_dots-split_dots [] = refl
join_dots-split_dots (c ∷ text) =
    let (p, ps, e) = split_dots_some text in
    let ih : join_dots (p ∷ ps) ≡ text = ap join_dots (sym e) ∙ join_dots-split_dots text in
    elim (Bool-cases (c == b'.')) [
      | inl h ↦ (let same : c ≡ b'.' = (nat_beq_iff c b'.').0 h in rw (h, e, ih, same) refl)
      | inr h ↦ rw (h, e, join_dots-prepend c p ps, ih) refl
    ]

regroup-prepend :
    (n c : ℕ) (p : Chars) (ps : List Chars)
    → regroup (suc (suc n)) (prepend c (p ∷ ps)) ≡ prepend c (regroup (suc (suc n)) (p ∷ ps))
regroup-prepend n c p [] = refl
regroup-prepend n c p (q ∷ ps) = refl

pub splitn_dots-regroup : (n : ℕ) (text : Chars) → splitn_dots n text ≡ regroup n (split_dots text)
unfolding splitn_dots split_dots
splitn_dots-regroup zero text = refl
splitn_dots-regroup (suc zero) text = ap (λ t. t ∷ []) (sym (join_dots-split_dots text))
splitn_dots-regroup (suc (suc n)) [] = refl
splitn_dots-regroup (suc (suc n)) (c ∷ text) =
    let (p, ps, e) = split_dots_some text in
    elim (Bool-cases (c == b'.')) [
      | inl h ↦
          rw (splitn_dots, h, e)
            (ap (λ ps. [] ∷ ps) (splitn_dots-regroup (suc n) text ∙ ap (regroup (suc n)) e))
      | inr h ↦
          rw (splitn_dots, h, e)
            (ap (prepend c) (splitn_dots-regroup (suc (suc n)) text ∙ ap (regroup (suc (suc n))) e)
              ∙ sym (regroup-prepend n c p ps))
    ]

-- A text without dots.
abbrev pub HasNoDot : Chars → Type 0
HasNoDot text = All (λ c. (c == b'.') ≡ false) text

-- A text without dots, before a dot, is a part of its own.
pub splitn_dots-part :
    (n : ℕ) (part text : Chars)
    → HasNoDot part
    → splitn_dots (suc (suc n)) (part ++ b'.' ∷ text) ≡ part ∷ splitn_dots (suc n) text
unfolding splitn_dots
splitn_dots-part n [] text h = refl
splitn_dots-part n (c ∷ part) text h =
    rw (splitn_dots, h.0) (ap (prepend c) (splitn_dots-part n part text h.1))

pub split_dots-part :
    (part text : Chars) → HasNoDot part → split_dots (part ++ b'.' ∷ text) ≡ part ∷ split_dots text
unfolding split_dots
split_dots-part [] text h = refl
split_dots-part (c ∷ part) text h = rw (h.0) (ap (prepend c) (split_dots-part part text h.1))
