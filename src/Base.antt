-- ===== src/Base.antt =====
-- What the other modules share: library names passed on, Boolean tests, numbers, byte strings and
-- the association lists that stand for Go maps.
mod Tests
mod Lists
mod Strings
mod Text
mod Maps
mod Ints
mod Prefixes
pub use Tests.*
unfoldable pub use Lists.*
unfoldable pub use Text.*
pub use Strings.*
unfoldable pub use Maps.*
pub use Ints.*
pub use Prefixes.*
pub use Prim.Native.Nat.{ℕ, zero, suc, ◌+◌, ◌-◌, ◌*◌, ◌/◌, ◌%◌, ◌^◌, ◌≤◌, ◌<◌}
pub use mathlib.Core.Path.{◌≡◌, refl, sym, ap, subst, ◌∙◌}
pub use mathlib.Core.Logic.{◌≢◌, ◌↔◌, ◌⊎◌, inl, inr}
pub use mathlib.Core.Bool.{Bool, true, false, not, ◌&&◌, ◌||◌}
pub use mathlib.Core.Option.{Option, none, some}
pub use mathlib.Core.List.{List, [], ◌∷◌, ◌++◌, map}
pub use native.Mathlib.Omega.{arith}
