-- ===== src/Core/Text.antt =====
-- Texts made by `format_args!`, `.into()` and `CompactString::from`: the format string and the
-- values that stand in its places, in order. Rendering them is the language's.
use corsa_bind.Common.{ℕ, String, List, [], ◌∷◌}

pub data Arg : Type 0 where
  num : ℕ → Arg
  str : String → Arg

pub record Text : Type 0 where
  pub format : String
  pub args : List Arg

abbrev pub literal : String → Text
literal s = record { format = s; args = [] }

abbrev pub with_num : String → ℕ → Text
with_num s n = record { format = s; args = Arg.num n ∷ [] }

abbrev pub with_str : String → String → Text
with_str s t = record { format = s; args = Arg.str t ∷ [] }
