-- ===== src/Prelude.antt =====
-- Shared names: the libraries', passed on, with Boolean tests, list functions over the native
-- numbers, signed integers and the fixed-point decimals that stand for Python's `Decimal`.
mod Tests
mod Lists
mod Sorting
mod Texts
pub mod Int
pub mod Decimal
pub mod Sums
pub use Tests.*
pub use Lists.*
pub use Sorting.*
pub use Texts.*
pub use Prim.Native.Nat.{ℕ, zero, suc, ◌+◌, ◌-◌, ◌*◌, ◌/◌, ◌%◌, ◌^◌, ◌≤◌, ◌<◌, min, max}
pub use Prim.Native.String.{String}
pub use mathlib.Core.Path.{◌≡◌, refl, sym, ap, subst, ◌∙◌}
pub use mathlib.Core.Logic.{◌≢◌, ◌↔◌, ◌⊎◌, inl, inr}
pub use mathlib.Core.Bool.{Bool, true, false, not, ◌&&◌, ◌||◌}
pub use mathlib.Core.Option.{Option, none, some}
pub use mathlib.Core.List.{List, [], ◌∷◌, ◌++◌, map, reverse}
pub use native.Mathlib.Omega.{arith}
