-- ===== src/Common.antt =====
-- Names that every component shares: the libraries' passed on, Boolean tests, equality by
-- instance, byte lists and association lists.
mod Tests
mod Lists
mod Equality
mod Assoc
mod Arrays
mod Sorting
pub use Tests.*
pub use Lists.*
pub use Equality.*
pub use Assoc.*
pub use Arrays.*
pub use Sorting.*
pub use Prim.Native.Nat.{ℕ, zero, suc, ◌+◌, ◌-◌, ◌*◌, ◌/◌, ◌%◌, ◌^◌, ◌≤◌, ◌<◌}
pub use Prim.Native.String.{String}
pub use mathlib.Core.Path.{◌≡◌, refl, sym, ap, ◌∙◌, subst}
pub use mathlib.Core.Logic.{◌≢◌, ◌↔◌, ◌⊎◌, inl, inr}
pub use mathlib.Core.Bool.{Bool, true, false, not, ◌&&◌, ◌||◌}
pub use mathlib.Core.Option.{Option, none, some}
pub use mathlib.Core.List.{List, [], ◌∷◌, ◌++◌, map, append-nil, append_assoc}
pub use native.Mathlib.Omega.{arith}
