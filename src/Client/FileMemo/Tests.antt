-- ===== src/Client/FileMemo/Tests.antt =====
-- The memo of source file descriptors at concrete uses.
use Prim.Native.Nat.{max}
use corsa_bind.Common.{
  ℕ, ◌+◌, ◌*◌, ◌≤◌, ◌≡◌, refl, arith, some, List, [], ◌∷◌, ◌++◌, length, nat_eq,
}
use corsa_bind.Client.FileMemo.{FileMemo, unwrap_or, with_generation, insert_young, remember, get}
use corsa_bind.Client.FileMemo.Kept.{MemoUse, remembers, gets, use_all, use_all_within}
use corsa_bind.Client.FileMemo.Lives.{remember-use_all}

-- Two further files, in a memo whose generations have two entries.
abbrev uses : List (MemoUse ℕ ℕ)
uses = remembers 8 80 ∷ remembers 9 90 ∷ []

abbrev small : FileMemo ℕ ℕ
small = with_generation 2

known : unwrap_or (get 7 small).1 70 ≡ 70
unfolding get
known = refl

-- The third of them makes the first generation old.
third :
    use_all (gets 6 ∷ remembers 7 70 ∷ uses) small
    ≡ record { young = (9, 90) ∷ []; old = (7, 70) ∷ (8, 80) ∷ []; generation = 2 }
unfolding remember get insert_young
third = refl

-- A descriptor that is read moves to the young generation, and the first one that is known stays.
read_again :
    use_all (remembers 7 70 ∷ uses ++ gets 7 ∷ remembers 7 71 ∷ []) small
    ≡ record { young = (9, 90) ∷ (7, 70) ∷ []; old = (8, 80) ∷ []; generation = 2 }
unfolding remember get insert_young
read_again = refl

remember-use_all_example : (get 7 (use_all uses (remember 7 70 small))).1 ≡ some 70
remember-use_all_example = remember-use_all 7 70 uses 70 small (omega arith) known

use_all_within_example :
    length (use_all uses small).young + length (use_all uses small).old ≤ 2 * max 2 1
use_all_within_example = use_all_within 2 uses
