-- ===== src/Client/FileMemo.antt =====
-- src/core/corsa_client/src/api/symbol_identity.rs: `FileMemo`, the source file descriptors that a
-- connection remembers in two generations. Keys and descriptors are arguments.
pub mod Kept
pub mod Lives
pub mod Tests
use corsa_bind.Common.{
  ℕ, Bool, true, false, Option, some, none, List, [], ◌∷◌, Eq, lookup, insert, remove, contains_key,
  length, leb, if◌then◌else◌,
}

pub record FileMemo (K V : Type 0) : Type 0 where
  pub young : List (K × V)
  pub old : List (K × V)
  pub generation : ℕ

abbrev pub file_memo_generation : ℕ
file_memo_generation = 32768

abbrev pub unwrap_or : {V : Type 0} → Option V → V → V
unwrap_or none v = v
unwrap_or (some w) v = w

module _ {K : Type 0} {V : Type 0} where
  abbrev pub with_generation : ℕ → FileMemo K V
  with_generation generation = record { young = []; old = []; generation = generation }

  module _ ⦃e : Eq K⦄ where
    -- `FileMemo::insert`
    unfoldable pub insert_young : K → V → FileMemo K V → FileMemo K V
    insert_young node_id descriptor m =
        if leb m.generation (length m.young)
        then record m { young = insert node_id descriptor []; old = m.young }
        else record m { young = insert node_id descriptor m.young }

    unfoldable pub remember : K → V → FileMemo K V → FileMemo K V
    unfolding insert_young
    remember node_id descriptor m =
        if contains_key node_id m.young
        then m
        else insert_young node_id (unwrap_or (lookup node_id m.old) descriptor)
            (record m { old = remove node_id m.old })

    -- The descriptor that stands in the old generation only moves to the young one.
    abbrev pub moved : K → FileMemo K V → Option V → FileMemo K V × Option V
    moved node_id m none = (m, none)
    moved node_id m (some descriptor) =
        (insert_young node_id descriptor (record m { old = remove node_id m.old }), some descriptor)

    abbrev pub found : K → FileMemo K V → Option V → FileMemo K V × Option V
    found node_id m (some descriptor) = (m, some descriptor)
    found node_id m none = moved node_id m (lookup node_id m.old)

    unfoldable pub get : K → FileMemo K V → FileMemo K V × Option V
    unfolding insert_young
    get node_id m = found node_id m (lookup node_id m.young)
