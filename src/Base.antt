-- ===== src/Base.antt =====
-- Names that all modules share: the libraries', passed on, and those of the children
-- (Boolean tests, arrays as lists, machine words, aborting runs, signed integers).
mod Tests
mod Lists
mod Distinct
mod Effects
mod Words
pub mod Int
pub use Tests.*
pub use Lists.*
pub use Distinct.*
pub use Effects.*
pub use Words.*
pub use Prim.Native.Nat.{ℕ, zero, suc, ◌+◌, ◌-◌, ◌*◌, ◌/◌, ◌%◌, ◌^◌, ◌≤◌, ◌<◌, min}
pub use mathlib.Core.Path.{◌≡◌, refl, sym, ap, ◌∙◌}
pub use mathlib.Core.Logic.{◌≢◌, ◌↔◌, ◌⊎◌, inl, inr}
pub use mathlib.Core.Bool.{Bool, true, false, not, ◌&&◌, ◌||◌}
pub use mathlib.Core.Option.{Option, none, some}
pub use mathlib.Core.List.{List, [], ◌∷◌, ◌++◌, map}
pub use native.Mathlib.Omega.{arith}
