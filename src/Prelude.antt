-- ===== src/Prelude.antt =====
-- Shared names, Boolean tests, byte arrays, bits of a byte and bounded checks, for the models of
-- machine/, kernel/ and mkfs/.
mod Tests
mod Arrays
mod Bits
mod Search
mod Lists
pub use Tests.*
pub use Arrays.*
unfoldable pub use Bits.*
unfoldable pub use Search.*
pub use Lists.*
pub use Prim.Native.Nat.{ℕ, zero, suc, ◌+◌, ◌-◌, ◌*◌, ◌/◌, ◌%◌, ◌^◌, ◌≤◌, ◌<◌, bit_and, bit_or, min}
pub use mathlib.Core.Path.{◌≡◌, refl, sym, ap, ◌∙◌, fun_ext}
pub use mathlib.Core.Logic.{◌≢◌, ◌↔◌, ◌⊎◌, inl, inr}
pub use mathlib.Core.Bool.{Bool, true, false, not, ◌&&◌, ◌||◌}
pub use mathlib.Core.Option.{Option, none, some}
pub use mathlib.Core.List.{List, [], ◌∷◌, ◌++◌}
pub use native.Mathlib.Omega.{arith}
