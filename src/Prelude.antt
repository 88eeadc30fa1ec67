-- ===== src/Prelude.antt =====
-- What the other modules share: library names passed on, Boolean tests, keys with a decidable
-- equality, lists measured by native numbers, and hash maps.
mod Tests
mod Keys
mod Lists
mod Text
pub mod HashMap
pub mod Int
pub use Tests.*
unfoldable pub use Keys.{option_eq, list_eq, pair_eq}
pub use Keys.{
  Key, ◌==◌, nat_key, string_key, string_iff, option_eq_iff, list_eq_iff, pair_eq_iff, option_key,
  list_key, pair_key,
}
pub use Lists.*
pub use Text.*
pub use Prim.Native.Nat.{ℕ, zero, suc, ◌+◌, ◌-◌, ◌*◌, ◌/◌, ◌%◌, ◌^◌, ◌≤◌, ◌<◌}
pub use Prim.Native.String.{String}
pub use mathlib.Core.Path.{◌≡◌, refl, sym, ap, ◌∙◌, fun_ext}
pub use mathlib.Core.Logic.{◌≢◌, ◌↔◌, ◌⊎◌, inl, inr}
pub use mathlib.Core.Bool.{Bool, true, false, ◌&&◌, ◌||◌, not}
pub use mathlib.Core.Option.{Option, none, some}
pub use mathlib.Core.List.{List, [], ◌∷◌, ◌++◌, map}
pub use native.Mathlib.Omega.{arith}
