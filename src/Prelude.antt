-- ===== src/Prelude.antt =====
-- The names that the other modules share: library names, Boolean tests and lists over native
-- numbers, signed integers, and the result type that stands for the C++ exceptions.
mod Tests
mod Lists
mod Integers
mod Exceptions
mod Predicates
mod Strings
mod Options
pub use Tests.*
pub use Lists.*
unfoldable pub use Integers.*
pub use Exceptions.*
pub use Predicates.*
unfoldable pub use Strings.*
pub use Options.*
pub use Prim.Native.Nat.{ℕ, zero, suc, ◌+◌, ◌-◌, ◌*◌, ◌/◌, ◌%◌, ◌≤◌, ◌<◌, min, max}
pub use mathlib.Core.Path.{◌≡◌, refl, sym, ap, subst, ◌∙◌}
pub use mathlib.Core.Logic.{◌≢◌, ◌↔◌, ◌⊎◌, inl, inr}
pub use mathlib.Core.Bool.{Bool, true, false, not, ◌&&◌, ◌||◌}
pub use mathlib.Core.Option.{Option, none, some}
pub use mathlib.Core.List.{List, [], ◌∷◌, ◌++◌, map}
pub use native.Mathlib.Omega.{arith}
