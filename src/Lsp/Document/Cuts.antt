-- ===== src/Lsp/Document/Cuts.antt =====
-- What the loop of `byte_offset` finds is a cut of the text, at the position asked for.
use corsa_bind.Common.{
  ℕ, ◌+◌, ◌%◌, ◌^◌, ◌≤◌, ◌<◌, true, false, [], ◌∷◌, ◌++◌, ◌==◌, nat_eq, nat_beq_iff, ◌≡◌, ◌≢◌, refl,
  sym, ap, ◌∙◌, arith, Bool-cases, inl, inr, ◌⊎◌,
}
use corsa_bind.Core.Error.{ok}
use corsa_bind.Lsp.Document.{Chars, len_utf8, len_utf16, byte_len, Position, offset_loop}
use corsa_bind.Lsp.Document.Positions.{
  position_from, offset_loop-here, offset_loop-below, offset_loop-on, offset_loop-off,
}
use native.Mathlib.Decide.{dec_lt}

same_position :
    (position : Position) (l c : ℕ)
    → position.line ≡ l
    → position.character ≡ c
    → ◌≡◌ {A = Position} (record { line = l; character = c }) position
same_position position l c a b = rw (← a, ← b) refl

-- What the loop found: a cut of the text, at the position and at the index.
pub record Found (position : Position) (text : Chars) (l c index i : ℕ) : Type 0 where
  pub before : Chars
  pub after : Chars
  pub cut : text ≡ before ++ after
  pub there : position_from l c before ≡ position
  pub at_index : index + byte_len before ≡ i

Found-here :
    (position : Position) (text : Chars) (l c column index i : ℕ)
    → position.line ≡ l
    → column ≡ c
    → position.character ≡ column
    → offset_loop position text l column index ≡ ok i
    → Found position text l c index i
Found-here position text l c column index i a k b h = record {
  before = [];
  after = text;
  cut = refl;
  there = same_position position l c a (b ∙ k);
  at_index =
      let q : index ≡ i = cc (h, offset_loop-here position text l column index a b) in omega arith;
}

module _ (position : Position) (ch : ℕ) (text : Chars) (l c index i : ℕ) where
  Found-below :
      (ch == b'\n') ≡ true
      → Found position text (l + 1) 0 (index + len_utf8 ch) i
      → Found position (ch ∷ text) l c index i
  Found-below n f = record {
    before = ch ∷ f.before;
    after = f.after;
    cut = ap (◌∷◌ ch) f.cut;
    there = rw n f.there;
    at_index = omega (arith, f.at_index);
  }

  Found-beside :
      (ch == b'\n') ≡ false
      → Found position text l (c + len_utf16 ch) (index + len_utf8 ch) i
      → Found position (ch ∷ text) l c index i
  Found-beside n f = record {
    before = ch ∷ f.before;
    after = f.after;
    cut = ap (◌∷◌ ch) f.cut;
    there = rw n f.there;
    at_index = omega (arith, f.at_index);
  }

  stuck :
      (column : ℕ)
      → position.line ≡ l
      → position.character ≢ column
      → (position.character < (column + len_utf16 ch) % 2 ^ 32) ⊎ ((ch == b'\n') ≡ true)
      → offset_loop position (ch ∷ text) l column index ≢ ok i
  unfolding offset_loop
  stuck column a n w h = ground arith

end_at :
    (position : Position) (l column index i : ℕ)
    → offset_loop position [] l column index ≡ ok i
    → (position.line ≡ l) × (position.character ≡ column)
unfolding offset_loop
end_at position l column index i h = (ground arith, ground arith)

pub offset_loop_sound :
    (position : Position) (text : Chars) (l c column index i : ℕ)
    → (l ≡ position.line → column ≡ c)
    → l ≤ position.line
    → l + byte_len text < 2 ^ 32
    → c + byte_len text < 2 ^ 32
    → offset_loop position text l column index ≡ ok i
    → Found position text l c index i
offset_loop_sound position [] l c column index i k le a b h =
    let (at, to) = end_at position l column index i h in
    Found-here position [] l c column index i at (k (sym at)) to h
offset_loop_sound position (ch ∷ text) l c column index i k le a b h =
    elim (Bool-cases (ch == b'\n')) [
      | inl n ↦ elim (dec_lt l position.line) [
        | yes lt ↦ Found-below position ch text l c index i n (
            offset_loop_sound position text (l + 1) 0 0 (index + len_utf8 ch) i (λ e. refl)
              (omega arith) (ground arith) (ground arith)
              (sym (offset_loop-below position ch text l column index n lt (ground arith)) ∙ h))
        | no ge ↦
            let same : position.line ≡ l = omega arith in
            elim (Bool-cases (position.character == column)) [
              | inl e ↦
                  Found-here position (ch ∷ text) l c column index i same (k (sym same))
                    ((nat_beq_iff position.character column).0 e) h
              | inr e ↦ absurd (
                  stuck position ch text l c index i column same
                    (λ q. cc (e, (nat_beq_iff position.character column).1 q)) (inr n) h)
            ]
      ]
      | inr n ↦ elim (dec_lt l position.line) [
        | yes lt ↦ Found-beside position ch text l c index i n (
            offset_loop_sound position text l (c + len_utf16 ch) column (index + len_utf8 ch) i
              (λ e. absurd (omega arith)) le (ground arith) (ground arith)
              (sym (offset_loop-off position ch text l column index n lt) ∙ h))
        | no ge ↦
            let same : position.line ≡ l = omega arith in
            elim (Bool-cases (position.character == column)) [
              | inl e ↦
                  Found-here position (ch ∷ text) l c column index i same (k (sym same))
                    ((nat_beq_iff position.character column).0 e) h
              | inr e ↦ elim (dec_lt position.character (column + len_utf16 ch)) [
                | yes over ↦ absurd (
                    stuck position ch text l c index i column same
                      (λ q. cc (e, (nat_beq_iff position.character column).1 q))
                      (inl (ground (arith, k (sym same)))) h)
                | no fits ↦
                    let true_column = k (sym same) in
                    Found-beside position ch text l c index i n (
                      offset_loop_sound position text l (c + len_utf16 ch) (column + len_utf16 ch)
                        (index + len_utf8 ch) i (λ q. omega arith) le (ground arith) (ground arith)
                        (sym (
                            offset_loop-on position ch text l column index n same (omega arith)
                              (ground arith))
                          ∙ h))
              ]
            ]
      ]
    ]
