-- ===== src/Prelude.antt =====
-- The names that the other modules share: those of the libraries, passed on, Boolean tests on
-- native numbers, and lists that native numbers measure and index.
mod Tests
mod Lists
pub mod Int
pub mod Order
pub mod Distinct
pub mod Ascii
pub use Tests.*
pub use Lists.*
pub use Prim.Native.Nat.{ℕ, zero, suc, ◌+◌, ◌-◌, ◌*◌, ◌/◌, ◌%◌, ◌^◌, ◌≤◌, ◌<◌, min, max}
pub use Prim.Native.Nat.{bit_and, bit_or, bit_xor}
pub use mathlib.Core.Path.{◌≡◌, refl, sym, ap, ap₂, ◌∙◌, subst, fun_ext}
pub use mathlib.Core.Logic.{◌≢◌, ◌↔◌, ◌⊎◌, inl, inr}
pub use mathlib.Core.Bool.{Bool, true, false, not, ◌&&◌, ◌||◌}
pub use mathlib.Core.Option.{Option, none, some}
pub use mathlib.Core.List.{List, [], ◌∷◌, ◌++◌, map, reverse, append-nil, append_assoc}
pub use native.Mathlib.Omega.{arith}
