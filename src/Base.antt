-- ===== src/Base.antt =====
-- The names that the modules of this library share: those of the libraries, passed on, Boolean
-- tests, lists indexed by native numbers, the bits of a number, powers of two, masks, and
-- differences that wrap around.
mod Tests
mod Lists
mod Bits
mod Powers
mod Masks
mod Wrap
pub use Tests.*
pub use Lists.*
pub use Bits.*
pub use Powers.*
pub use Masks.*
pub use Wrap.*
pub use Prim.Native.Nat.{ℕ, zero, suc, ◌+◌, ◌-◌, ◌*◌, ◌/◌, ◌%◌, ◌^◌, ◌≤◌, ◌<◌}
pub use Prim.Native.Nat.{bit_and, bit_or, bit_xor}
pub use mathlib.Core.Path.{◌≡◌, refl, sym, ap, ap₂, ◌∙◌}
pub use mathlib.Core.Logic.{◌≢◌, ◌↔◌, ◌⊎◌, inl, inr}
pub use mathlib.Core.Bool.{Bool, true, false, not, ◌&&◌, ◌||◌}
pub use mathlib.Core.Option.{Option, none, some}
pub use mathlib.Core.List.{List, [], ◌∷◌, ◌++◌, map}
pub use native.Mathlib.Omega.{arith}
