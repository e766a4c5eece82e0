-- ===== src/Base.antt =====
-- Names shared by every module: the numbers, lists and tests that the models of C code use.
mod Tests
mod Lists
mod Slices
pub mod Order
pub mod Int
pub mod Signed
pub mod Ring
pub mod Loops
pub mod Mod
pub mod Read
pub use Tests.*
pub use Lists.*
pub use Slices.*
pub use Order.{le-or-lt}
pub use Prim.Native.Nat.{ℕ, zero, suc, ◌+◌, ◌-◌, ◌*◌, ◌/◌, ◌%◌, ◌^◌, ◌≤◌, ◌<◌, min, max}
pub use Prim.Native.Nat.{bit_and, bit_or, bit_xor}
pub use mathlib.Core.Path.{◌≡◌, refl, sym, ap, ap₂, ◌∙◌}
pub use mathlib.Core.Logic.{◌≢◌, ◌↔◌, ◌⊎◌, inl, inr}
pub use mathlib.Core.Bool.{Bool, true, false, not, ◌&&◌, ◌||◌}
pub use mathlib.Core.Option.{Option, none, some}
pub use mathlib.Core.List.{List, [], ◌∷◌, ◌++◌, map}
pub use native.Mathlib.Omega.{arith}
