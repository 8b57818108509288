-- ===== src/Client/FileMemo/Lives.antt =====
-- How long a `FileMemo` keeps a descriptor that was used.
use mathlib.Core.Option.{some-injective}
use corsa_bind.Common.{
  ℕ, suc, ◌+◌, ◌≤◌, ◌≡◌, ◌≢◌, refl, arith, inl, inr, ◌⊎◌, sym, subst, ap, ◌∙◌, true, false, Option,
  some, none, List, [], ◌∷◌, Eq, ◌==◌, lookup, remove, contains_key, lookup-insert, lookup-remove,
  length, leb, Bool-cases,
}
use corsa_bind.Client.FileMemo.{FileMemo, unwrap_or, insert_young, remember, moved, found, get}
use corsa_bind.Client.FileMemo.Kept.{MemoUse, remembers, gets, use_memo, use_all, length-insert}

lookup-absent :
    {K V : Type 0} ⦃e : Eq K⦄ (k : K) (m : List (K × V))
    → contains_key k m ≡ false
    → lookup k m ≡ none
lookup-absent k [] h = refl
lookup-absent k ((j, w) ∷ m) h = ground (arith, lookup-absent k m)

lookup-present :
    {K V : Type 0} ⦃e : Eq K⦄ (k : K) (m : List (K × V))
    → contains_key k m ≡ true
    → (v : V) × (lookup k m ≡ some v)
lookup-present k [] h = cc
lookup-present k ((j, w) ∷ m) h = elim (Bool-cases (j == k)) [
  | inl s ↦ (w, rw s refl)
  | inr n ↦
      (let rest : contains_key k m ≡ true = ground arith in
        let (v, q) = lookup-present k m rest in (v, rw n q))
]

moved-value :
    {K V : Type 0} ⦃e : Eq K⦄ (k : K) (m : FileMemo K V) (o : Option V) → (moved k m o).1 ≡ o
moved-value k m none = refl
moved-value k m (some v) = refl

module _ {K : Type 0} {V : Type 0} ⦃e : Eq K⦄ (k : K) (v : V) where
  -- The descriptor stands in the young generation, or in the old one, which is not dropped by `uses`
  -- more insertions.
  abbrev IsYoung : FileMemo K V → Type 0
  IsYoung m = lookup k m.young ≡ some v

  record IsOld (uses : ℕ) (m : FileMemo K V) : Type 0 where
    not_young : lookup k m.young ≡ none
    is_old : lookup k m.old ≡ some v
    room : length m.young + uses ≤ m.generation

  abbrev Lives : ℕ → FileMemo K V → Type 0
  Lives uses m = (uses ≤ m.generation) × (IsYoung m ⊎ IsOld uses m)

  weaken : (uses : ℕ) (m : FileMemo K V) → Lives (suc uses) m → Lives uses m
  weaken uses m (le, inl y) = (omega arith, inl y)
  weaken uses m (le, inr o) = (
    omega arith,
    inr (record { not_young = o.not_young; is_old = o.is_old; room = omega (arith, o.room) }),
  )

  -- An insertion of the descriptor itself makes it young.
  insert_same :
      (uses : ℕ) (m : FileMemo K V) → uses ≤ m.generation → Lives uses (insert_young k v m)
  unfolding insert_young
  insert_same uses m le =
      let here : (k == k) ≡ true = (e.beq_iff k k).1 refl in
      elim (Bool-cases (leb m.generation (length m.young))) [
        | inl h ↦ rw h (le, inl (rw here refl))
        | inr h ↦ rw h (le, inl (rw (lookup-insert k k v m.young, here) refl))
      ]

  -- The insertion of another.
  insert_other :
      (uses : ℕ) (j : K) (w : V) (m : FileMemo K V)
      → (j == k) ≡ false
      → Lives (suc uses) m
      → Lives uses (insert_young j w (record m { old = remove j m.old }))
  unfolding insert_young
  insert_other uses j w m n (le, inl y) = elim (Bool-cases (leb m.generation (length m.young))) [
    | inl h ↦
        rw h (omega arith, inr (record { not_young = rw n refl; is_old = y; room = omega arith }))
    | inr h ↦ rw h (omega arith, inl (rw (lookup-insert j k w m.young, n) y))
  ]
  insert_other uses j w m n (le, inr o) = elim (Bool-cases (leb m.generation (length m.young))) [
    | inl h ↦
        (let full : m.generation ≤ length m.young = ground arith in
          absurd (omega (arith, o.room, full)))
    | inr h ↦ rw h (
      omega arith,
      inr (record {
        not_young = rw (lookup-insert j k w m.young, n) o.not_young;
        is_old = rw (lookup-remove j k m.old, n) o.is_old;
        room = omega (arith, length-insert j w m.young, o.room);
      }),
    )
  ]

  -- The key of the entry that is read and that of the descriptor, when they are the same.
  use_same :
      (uses : ℕ) (j : K) (w : V) (m : FileMemo K V)
      → (j == k) ≡ true
      → w ≡ v
      → uses ≤ m.generation
      → Lives uses (insert_young j w (record m { old = remove j m.old }))
  use_same uses j w m s same le =
      let at_k : Lives uses (insert_young k v (record m { old = remove j m.old })) =
        insert_same uses (record m { old = remove j m.old }) le in
      let key : k ≡ j = sym ((e.beq_iff j k).0 s) in
      let at_j : Lives uses (insert_young j v (record m { old = remove j m.old })) =
        subst (λ i. Lives uses (insert_young i v (record m { old = remove j m.old }))) key at_k in
      subst (λ x. Lives uses (insert_young j x (record m { old = remove j m.old }))) (sym same) at_j

  -- Where the key is not in the young generation, its descriptor is in the old one.
  is_old_at :
      (uses : ℕ) (m : FileMemo K V)
      → Lives uses m
      → lookup k m.young ≢ some v
      → lookup k m.old ≡ some v
  is_old_at uses m (le, inl y) n = absurd (n y)
  is_old_at uses m (le, inr o) n = o.is_old

  moved-Lives :
      (uses : ℕ) (j : K) (m : FileMemo K V) (o : Option V)
      → lookup j m.young ≡ none
      → lookup j m.old ≡ o
      → Lives (suc uses) m
      → Lives uses (moved j m o).0
  moved-Lives uses j m none y h l = weaken uses m l
  moved-Lives uses j m (some w) y h l = elim (Bool-cases (j == k)) [
    | inl s ↦
        (let key : j ≡ k = (e.beq_iff j k).0 s in
          let at_k : lookup k m.young ≡ none = subst (λ i. lookup i m.young ≡ none) key y in
          let old_k : lookup k m.old ≡ some w = subst (λ i. lookup i m.old ≡ some w) key h in
          let old_v : lookup k m.old ≡ some v = is_old_at (suc uses) m l (λ q. cc) in
          use_same uses j w m s (some-injective _ _ (sym old_k ∙ old_v))
            (let le : suc uses ≤ m.generation = l.0 in omega arith))
    | inr n ↦ insert_other uses j w m n l
  ]

  found-Lives :
      (uses : ℕ) (j : K) (m : FileMemo K V) (o : Option V)
      → lookup j m.young ≡ o
      → Lives (suc uses) m
      → Lives uses (found j m o).0
  found-Lives uses j m (some w) h l = weaken uses m l
  found-Lives uses j m none h l = moved-Lives uses j m (lookup j m.old) h refl l

  use_memo-Lives :
      (uses : ℕ) (u : MemoUse K V) (m : FileMemo K V)
      → Lives (suc uses) m
      → Lives uses (use_memo u m)
  unfolding remember get
  use_memo-Lives uses (gets j) m l = found-Lives uses j m (lookup j m.young) refl l
  use_memo-Lives uses (remembers j w) m l = elim (Bool-cases (contains_key j m.young)) [
    | inl h ↦ rw h (weaken uses m l)
    | inr h ↦ rw h (elim (Bool-cases (j == k)) [
      | inr n ↦ insert_other uses j (unwrap_or (lookup j m.old) w) m n l
      | inl s ↦
          (let key : k ≡ j = sym ((e.beq_iff j k).0 s) in
            let absent : lookup k m.young ≡ none =
              subst (λ i. lookup i m.young ≡ none) (sym key) (lookup-absent j m.young h) in
            let old_k : lookup k m.old ≡ some v = is_old_at (suc uses) m l (λ q. cc) in
            let old_j : lookup j m.old ≡ some v = subst (λ i. lookup i m.old ≡ some v) key old_k in
            use_same uses j (unwrap_or (lookup j m.old) w) m s (rw old_j refl)
              (let le : suc uses ≤ m.generation = l.0 in omega arith))
    ])
  ]

  use_all-Lives :
      (us : List (MemoUse K V)) (m : FileMemo K V) → Lives (length us) m → Lives 0 (use_all us m)
  use_all-Lives [] m l = l
  use_all-Lives (u ∷ us) m l = use_all-Lives us (use_memo u m) (
      use_memo-Lives (length us) u m (
        let counted : length (u ∷ us) ≡ suc (length us) = omega arith in
        subst (λ n. Lives n m) counted l))

  Lives-get : (uses : ℕ) (m : FileMemo K V) → Lives uses m → (get k m).1 ≡ some v
  unfolding get
  Lives-get uses m (le, inl y) = rw y refl
  Lives-get uses m (le, inr o) = rw (o.not_young, o.is_old) refl

  insert_unwrapped :
      (uses : ℕ) (w : V) (m : FileMemo K V)
      → uses ≤ m.generation
      → w ≡ v
      → Lives uses (insert_young k w (record m { old = remove k m.old }))
  insert_unwrapped uses w m le h =
      subst (λ x. Lives uses (insert_young k x (record m { old = remove k m.old }))) (sym h)
        (insert_same uses (record m { old = remove k m.old }) le)

  moved_kept :
      (uses : ℕ) (m : FileMemo K V) (o : Option V)
      → uses ≤ m.generation
      → (moved k m o).1 ≡ some v
      → Lives uses (moved k m o).0
  moved_kept uses m none le h = cc
  moved_kept uses m (some w) le h = insert_unwrapped uses w m le (some-injective _ _ h)

  found_kept :
      (uses : ℕ) (m : FileMemo K V) (o : Option V)
      → uses ≤ m.generation
      → lookup k m.young ≡ o
      → (found k m o).1 ≡ some v
      → Lives uses (found k m o).0
  found_kept uses m (some w) le y h = (le, inl (y ∙ h))
  found_kept uses m none le y h = moved_kept uses m (lookup k m.old) le h

  get-Lives :
      (uses : ℕ) (m : FileMemo K V)
      → uses ≤ m.generation
      → (get k m).1 ≡ some v
      → Lives uses (get k m).0
  unfolding get
  get-Lives uses m le h = found_kept uses m (lookup k m.young) le refl h

  -- Where `get` finds a descriptor, it finds it again after as many further uses of the memo, whichever
  -- they are, as a generation has entries.
  pub get-use_all :
      (us : List (MemoUse K V)) (m : FileMemo K V)
      → length us ≤ m.generation
      → (get k m).1 ≡ some v
      → (get k (use_all us (get k m).0)).1 ≡ some v
  get-use_all us m le h =
      Lives-get 0 (use_all us (get k m).0)
        (use_all-Lives us (get k m).0 (get-Lives (length us) m le h))

  remember-Lives :
      (uses : ℕ) (d : V) (m : FileMemo K V)
      → uses ≤ m.generation
      → unwrap_or (get k m).1 d ≡ v
      → Lives uses (remember k d m)
  unfolding remember get
  remember-Lives uses d m le h = elim (Bool-cases (contains_key k m.young)) [
    | inl c ↦
        (let (w, y) = lookup-present k m.young c in
          let known : unwrap_or (found k m (some w)).1 d ≡ v =
            subst (λ o. unwrap_or (found k m o).1 d ≡ v) y h in
          rw c (le, inl (y ∙ ap some known)))
    | inr c ↦
        (let y = lookup-absent k m.young c in
          let missing : unwrap_or (moved k m (lookup k m.old)).1 d ≡ v =
            subst (λ o. unwrap_or (found k m o).1 d ≡ v) y h in
          rw c (
            insert_unwrapped uses (unwrap_or (lookup k m.old) d) m le
              (ap (λ o. unwrap_or o d) (sym (moved-value k m (lookup k m.old))) ∙ missing)))
  ]

  -- A descriptor that is remembered, or the one that the memo already has for the file, is found after as
  -- many further uses of the memo, whichever they are, as a generation has entries.
  pub remember-use_all :
      (us : List (MemoUse K V)) (d : V) (m : FileMemo K V)
      → length us ≤ m.generation
      → unwrap_or (get k m).1 d ≡ v
      → (get k (use_all us (remember k d m))).1 ≡ some v
  remember-use_all us d m le h =
      Lives-get 0 (use_all us (remember k d m))
        (use_all-Lives us (remember k d m) (remember-Lives (length us) d m le h))
