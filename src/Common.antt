-- ===== src/Common.antt =====
-- The names that the modules share: the libraries' names, passed on, the Boolean tests, lists over
-- the native numbers, results with errors, byte strings and association lists.
mod Tests
mod Lists
mod Items
mod Results
mod Numbers
pub mod Bytes
pub mod Assoc
pub use Tests.*
pub use Lists.*
pub use Items.*
pub use Results.*
pub use Numbers.*
pub use Prim.Native.Nat.{ℕ, zero, suc, ◌+◌, ◌-◌, ◌*◌, ◌/◌, ◌%◌, ◌^◌, ◌≤◌, ◌<◌, min, max}
pub use mathlib.Core.Path.{◌≡◌, refl, sym, ap, ap₂, subst, ◌∙◌}
pub use mathlib.Core.Logic.{◌≢◌, ◌↔◌, ◌⊎◌, inl, inr}
pub use mathlib.Core.Bool.{Bool, true, false, not, ◌&&◌, ◌||◌}
pub use mathlib.Core.Option.{Option, none, some}
pub use mathlib.Core.List.{List, [], ◌∷◌, ◌++◌, map, reverse}
pub use native.Mathlib.Omega.{arith}
