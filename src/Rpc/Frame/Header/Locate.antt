-- ===== src/Rpc/Frame/Header/Locate.antt =====
-- The searches agree with the plain recursive ones, whatever algorithm they run.
use corsa_bind.Common.{
  ℕ, zero, suc, ◌<◌, Bool, true, false, Option, none, some, [], ◌∷◌, Bytes, drop, get_elem?, ◌==◌,
  nat_eq, if◌then◌else◌, ◌≡◌, ◌≢◌, inl, inr, refl, ap, ◌∙◌, arith, Bool-cases,
}
use corsa_bind.Rpc.Frame.Header.{Search, starts_with}
use native.Mathlib.Decide.{dec_lt}

abbrev pub next_index : Option ℕ → Option ℕ
next_index none = none
next_index (some i) = some (suc i)

unfoldable pub index_of : ℕ → Bytes → Option ℕ
index_of b [] = none
index_of b (x ∷ xs) = if x == b then some 0 else next_index (index_of b xs)

unfoldable pub find_sub : Bytes → Bytes → Option ℕ
find_sub n [] = if starts_with n [] then some 0 else none
find_sub n (x ∷ xs) = if starts_with n (x ∷ xs) then some 0 else next_index (find_sub n xs)

-- A place where a test first passes.
pub record First (test : ℕ → Bool) (o : Option ℕ) : Type 0 where
  pub passes : (i : ℕ) → o ≡ some i → test i ≡ true
  pub before : (i j : ℕ) → o ≡ some i → j < i → test j ≡ false
  pub never : (j : ℕ) → o ≡ none → test j ≡ false

First-unique : (test : ℕ → Bool) (o p : Option ℕ) → First test o → First test p → o ≡ p
First-unique test none none f g = refl
First-unique test none (some j) f g = cc (f.never j refl, g.passes j refl)
First-unique test (some i) none f g = cc (g.never i refl, f.passes i refl)
First-unique test (some i) (some j) f g = elim (dec_lt i j) [
  | yes lt ↦ cc (g.before j i refl lt, f.passes i refl)
  | no ge ↦ elim (dec_lt j i) [
    | yes gt ↦ cc (f.before i j refl gt, g.passes j refl)
    | no le ↦ ap some (omega arith)
  ]
]

abbrev pub is_at : ℕ → Bytes → ℕ → Bool
is_at b [] i = false
is_at b (x ∷ xs) zero = x == b
is_at b (x ∷ xs) (suc i) = is_at b xs i

pub is_at-get_elem? : (b : ℕ) (h : Bytes) (i : ℕ) → get_elem? h i ≡ some b → is_at b h i ≡ true
is_at-get_elem? b [] i e = cc
is_at-get_elem? b (x ∷ xs) zero e = ground arith
is_at-get_elem? b (x ∷ xs) (suc i) e = is_at-get_elem? b xs i e

not-is_at : (b : ℕ) (h : Bytes) (i : ℕ) → get_elem? h i ≢ some b → is_at b h i ≡ false
not-is_at b [] i n = refl
not-is_at b (x ∷ xs) zero n = ground arith
not-is_at b (x ∷ xs) (suc i) n = not-is_at b xs i n

-- One more element in front, where the test fails.
First-next :
    (test after : ℕ → Bool) (o : Option ℕ)
    → ((i : ℕ) → test (suc i) ≡ after i)
    → test zero ≡ false
    → First after o
    → First test (next_index o)
First-next test after none s z f = record {
  passes = λ i e. cc;
  before = λ i j e lt. cc;
  never = elim [ zero ↦ λ _. z | suc j ↦ λ _. s j ∙ f.never j refl ];
}
First-next test after (some k) s z f = record {
  passes = elim [ zero ↦ λ e. cc | suc i ↦ λ e. s i ∙ f.passes i (cc) ];
  before = λ i. elim [
    | zero ↦ λ _ _. z
    | suc j ↦ λ e lt. s j ∙ f.before k j refl (let q : suc k ≡ i = cc in omega arith)
  ];
  never = λ j e. cc;
}

First-here : (test : ℕ → Bool) → test zero ≡ true → First test (some 0)
First-here test h = record {
  passes = λ i e. let q : 0 ≡ i = cc in rw (← q) h;
  before = λ i j e lt. let q : 0 ≡ i = cc in absurd (omega arith);
  never = λ j e. cc;
}

pub index_of-First : (b : ℕ) (h : Bytes) → First (is_at b h) (index_of b h)
unfolding index_of
index_of-First b [] = record { passes = λ i e. cc; before = λ i j e lt. refl; never = λ j e. refl }
index_of-First b (x ∷ xs) = elim (Bool-cases (x == b)) [
  | inl hit ↦ rw hit (First-here (is_at b (x ∷ xs)) hit)
  | inr miss ↦ rw miss (
      First-next (is_at b (x ∷ xs)) (is_at b xs) (index_of b xs) (λ i. refl) miss
        (index_of-First b xs))
]

abbrev pub starts_at : Bytes → Bytes → ℕ → Bool
starts_at n h i = starts_with n (drop i h)

pub find_sub-First : (n h : Bytes) → n ≢ [] → First (starts_at n h) (find_sub n h)
unfolding find_sub
find_sub-First [] h ne = absurd (ne refl)
find_sub-First (y ∷ n) [] ne = record {
  passes = λ i e. cc;
  before = λ i j e lt. cc;
  never = elim [ zero ↦ λ _. refl | suc j ↦ λ _. refl ];
}
find_sub-First (y ∷ n) (x ∷ xs) ne = elim (Bool-cases (starts_with (y ∷ n) (x ∷ xs))) [
  | inl hit ↦ rw hit (First-here (starts_at (y ∷ n) (x ∷ xs)) hit)
  | inr miss ↦ rw miss (
      First-next (starts_at (y ∷ n) (x ∷ xs)) (starts_at (y ∷ n) xs) (find_sub (y ∷ n) xs)
        (λ i. refl) miss (find_sub-First (y ∷ n) xs ne))
]

module _ (searches : Search) where
  pub memchr-index_of : (b : ℕ) (h : Bytes) → searches.memchr b h ≡ index_of b h
  memchr-index_of b h =
      First-unique (is_at b h) (searches.memchr b h) (index_of b h)
        (record {
          passes = λ i e. is_at-get_elem? b h i (searches.memchr_at b h i e);
          before = λ i j e lt. not-is_at b h j (searches.memchr_first b h i j e lt);
          never = λ j e. not-is_at b h j (searches.memchr_none b h j e);
        })
        (index_of-First b h)

  pub memmem-find_sub : (h n : Bytes) → n ≢ [] → searches.memmem h n ≡ find_sub n h
  memmem-find_sub h n ne =
      First-unique (starts_at n h) (searches.memmem h n) (find_sub n h)
        (record {
          passes = λ i e. (searches.memmem_at h n i e).1;
          before = λ i j e lt. searches.memmem_first h n i j e lt;
          never = λ j e. searches.memmem_none h n j e;
        })
        (find_sub-First n h ne)
