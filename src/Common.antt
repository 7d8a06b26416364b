-- ===== src/Common.antt =====
-- The names that every other module shares: the libraries', passed on, and those of the children:
-- Boolean tests, lists measured by native numbers, texts as code points, and comparison functions.
mod Tests
mod Lists
mod Search
mod Words
pub mod Text
pub mod Compare
pub mod Sort
pub mod Ordered
pub mod Int
pub use Tests.*
pub use Lists.*
pub use Search.*
unfoldable pub use Words.*
pub use Prim.Native.Nat.{ℕ, zero, suc, ◌+◌, ◌-◌, ◌*◌, ◌/◌, ◌%◌, ◌^◌, ◌≤◌, ◌<◌, min, max}
pub use Prim.Native.Nat.{compare, Ordering}
pub use mathlib.Core.Path.{◌≡◌, refl, sym, ap, ap₂, ◌∙◌}
pub use mathlib.Core.Logic.{◌≢◌, ◌↔◌, ◌⊎◌, inl, inr}
pub use mathlib.Core.Bool.{Bool, true, false, ◌&&◌, ◌||◌, not}
pub use mathlib.Core.Option.{Option, none, some}
pub use mathlib.Core.List.{List, [], ◌∷◌, ◌++◌, map}
pub use native.Mathlib.Omega.{arith}
