-- ===== src/Base.antt =====
-- What all parts of the development share: the libraries' names, passed on, Boolean tests, lists
-- measured by native numbers, texts, bits, and Go's errors, outcomes and effects.
mod Tests
mod Lists
mod Errors
mod Go
mod Int
pub mod Bits
pub mod Decimal
pub use Tests.*
pub use Lists.*
pub use Errors.*
pub use Go.*
pub use Int.*
pub use Prim.Native.Nat.{ℕ, zero, suc, ◌+◌, ◌-◌, ◌*◌, ◌/◌, ◌%◌, ◌^◌, ◌≤◌, ◌<◌, bit_and, bit_or}
pub use Prim.Native.String.{String}
pub use mathlib.Core.Path.{◌≡◌, refl, sym, ap, ◌∙◌, subst}
pub use mathlib.Core.Logic.{◌≢◌, ◌↔◌, ◌⊎◌, inl, inr}
pub use mathlib.Core.Bool.{Bool, true, false, not, ◌&&◌, ◌||◌}
pub use mathlib.Core.Option.{Option, none, some}
pub use mathlib.Core.List.{List, [], ◌∷◌, ◌++◌, map}
pub use native.Mathlib.Omega.{arith}
