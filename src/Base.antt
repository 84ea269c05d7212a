-- ===== src/Base.antt =====
-- The names that the other modules share: the libraries' names passed on, Boolean tests, lists with
-- native indices, search in arrays, signed numbers and C strings.
mod Tests
mod Lists
pub mod Search
pub mod Remove
pub mod Int
pub mod Ctype
pub mod Bytes
pub mod Decimal
pub mod Text
pub mod Scan
pub mod Fields
unfoldable pub use Tests.*
pub use Lists.*
pub use Prim.Native.Nat.{ℕ, zero, suc, ◌+◌, ◌-◌, ◌*◌, ◌/◌, ◌%◌, ◌^◌, ◌≤◌, ◌<◌}
pub use mathlib.Core.Path.{◌≡◌, refl, sym, ap, ap₂, subst, ◌∙◌}
pub use mathlib.Core.Logic.{◌≢◌, ◌↔◌, ◌⊎◌, inl, inr}
pub use mathlib.Core.Bool.{Bool, true, false, not, ◌&&◌, ◌||◌}
pub use mathlib.Core.Option.{Option, none, some}
pub use mathlib.Core.List.{List, [], ◌∷◌, ◌++◌, map, append_assoc, append-nil}
pub use native.Mathlib.Omega.{arith}
