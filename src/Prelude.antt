-- ===== src/Prelude.antt =====
-- The names that all modules share: the libraries' names passed on, Boolean tests on numbers,
-- arrays as functions with the scans of C's `for` loops, the outcome of kernel code that may
-- panic, and C's `int` as an integer.
mod Tests
mod Arrays
mod Lists
mod Outcomes
pub use Tests.*
unfoldable pub use Arrays.*
pub use Lists.*
unfoldable pub use Outcomes.*
pub use Prim.Native.Nat.{ℕ, zero, suc, ◌+◌, ◌-◌, ◌*◌, ◌/◌, ◌%◌, ◌^◌, ◌≤◌, ◌<◌}
pub use Prim.Native.String.{String}
pub use mathlib.Core.Path.{◌≡◌, refl, sym, ap, ◌∙◌}
pub use mathlib.Core.Logic.{◌≢◌, ◌⊎◌, inl, inr}
pub use mathlib.Core.Bool.{Bool, true, false, not, ◌&&◌, ◌||◌}
pub use mathlib.Core.Option.{Option, none, some}
pub use mathlib.Core.List.{List, [], ◌∷◌, ◌++◌, map}
pub use native.Mathlib.Omega.{arith}
