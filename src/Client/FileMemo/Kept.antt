-- ===== src/Client/FileMemo/Kept.antt =====
-- What a `FileMemo` keeps: how many descriptors at most, and for how long at least.
use Prim.Native.Nat.{max}
use corsa_bind.Common.{
  ℕ, suc, ◌+◌, ◌*◌, ◌≤◌, ◌<◌, ◌≡◌, refl, arith, inl, inr, ◌∙◌, true, Option, some, none, List, [],
  ◌∷◌, Eq, lookup, insert, remove, contains_key, length, leb, Bool-cases,
}
use corsa_bind.Client.FileMemo.{
  FileMemo, with_generation, unwrap_or, insert_young, remember, moved, found, get,
}

-- An operation of a connection on its memo.
pub data MemoUse (K V : Type 0) : Type 0 where
  remembers : K → V → MemoUse K V
  gets : K → MemoUse K V

module _ {K : Type 0} {V : Type 0} ⦃e : Eq K⦄ where
  abbrev pub use_memo : MemoUse K V → FileMemo K V → FileMemo K V
  use_memo (remembers k v) m = remember k v m
  use_memo (gets k) m = (get k m).0

  abbrev pub use_all : List (MemoUse K V) → FileMemo K V → FileMemo K V
  use_all [] m = m
  use_all (u ∷ us) m = use_all us (use_memo u m)

  pub length-insert : (k : K) (v : V) (m : List (K × V)) → length (insert k v m) ≤ suc (length m)
  length-insert k v [] = omega arith
  length-insert k v ((j, w) ∷ m) = ground (arith, length-insert k v m)

  length-remove : (k : K) (m : List (K × V)) → length (remove k m) ≤ length m
  length-remove k [] = omega arith
  length-remove k ((j, w) ∷ m) = ground (arith, length-remove k m)

  contains_key-lookup :
      (k : K) (m : List (K × V)) (v : V) → lookup k m ≡ some v → contains_key k m ≡ true
  contains_key-lookup k [] v h = cc
  contains_key-lookup k ((j, w) ∷ m) v h = ground (arith, contains_key-lookup k m v)

  -- Neither generation outgrows its limit, or one entry.
  pub record IsBounded (m : FileMemo K V) : Type 0 where
    pub young_le : length m.young ≤ max m.generation 1
    pub old_le : length m.old ≤ max m.generation 1

  insert_young-IsBounded :
      (k : K) (v : V) (m : FileMemo K V)
      → IsBounded m
      → IsBounded (insert_young k v m) × ((insert_young k v m).generation ≡ m.generation)
  unfolding insert_young
  insert_young-IsBounded k v m b = elim (Bool-cases (leb m.generation (length m.young))) [
    | inl h ↦ rw h (record { young_le = omega arith; old_le = b.young_le }, refl)
    | inr h ↦ rw h (
      record {
        young_le =
            (let lt : length m.young < m.generation = ground arith in
              omega (arith, length-insert k v m.young));
        old_le = b.old_le;
      },
      refl,
    )
  ]

  without-IsBounded :
      (k : K) (m : FileMemo K V) → IsBounded m → IsBounded (record m { old = remove k m.old })
  without-IsBounded k m b = record {
    young_le = b.young_le;
    old_le = omega (arith, length-remove k m.old, b.old_le);
  }

  moved-IsBounded :
      (k : K) (m : FileMemo K V) (o : Option V)
      → IsBounded m
      → IsBounded (moved k m o).0 × ((moved k m o).0.generation ≡ m.generation)
  moved-IsBounded k m none b = (b, refl)
  moved-IsBounded k m (some v) b =
      insert_young-IsBounded k v (record m { old = remove k m.old }) (without-IsBounded k m b)

  found-IsBounded :
      (k : K) (m : FileMemo K V) (o : Option V)
      → IsBounded m
      → IsBounded (found k m o).0 × ((found k m o).0.generation ≡ m.generation)
  found-IsBounded k m (some v) b = (b, refl)
  found-IsBounded k m none b = moved-IsBounded k m (lookup k m.old) b

  use_memo-IsBounded :
      (u : MemoUse K V) (m : FileMemo K V)
      → IsBounded m
      → IsBounded (use_memo u m) × ((use_memo u m).generation ≡ m.generation)
  unfolding remember get
  use_memo-IsBounded (remembers k v) m b = elim (Bool-cases (contains_key k m.young)) [
    | inl h ↦ rw h (b, refl)
    | inr h ↦ rw h (
        insert_young-IsBounded k (unwrap_or (lookup k m.old) v) (record m { old = remove k m.old })
          (without-IsBounded k m b))
  ]
  use_memo-IsBounded (gets k) m b = found-IsBounded k m (lookup k m.young) b

  use_all-IsBounded :
      (us : List (MemoUse K V)) (m : FileMemo K V)
      → IsBounded m
      → IsBounded (use_all us m) × ((use_all us m).generation ≡ m.generation)
  use_all-IsBounded [] m b = (b, refl)
  use_all-IsBounded (u ∷ us) m b =
      let (bounded, same) = use_memo-IsBounded u m b in
      let (all, rest) = use_all-IsBounded us (use_memo u m) bounded in (all, rest ∙ same)

  -- Whatever a connection does with a new memo, it never holds more descriptors than two generations,
  -- or two if a generation is empty.
  pub use_all_within :
      (generation : ℕ) (us : List (MemoUse K V))
      → let m : FileMemo K V = use_all us (with_generation generation) in
        (length m.young + length m.old ≤ 2 * max generation 1)
  use_all_within generation us =
      let (b, same) =
        use_all-IsBounded us (with_generation generation)
          (record { young_le = omega arith; old_le = omega arith }) in
      omega (arith, b.young_le, b.old_le, same)
