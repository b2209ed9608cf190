-- ===== src/Base.antt =====
-- Shared names: the libraries', passed on, and those of the children: Boolean tests, Go strings as
-- byte lists, Go's int64, and Go maps as association lists.
mod Tests
mod Strings
mod Words
mod Maps
mod Lists
unfoldable pub use Tests.*
unfoldable pub use Strings.*
unfoldable pub use Words.*
unfoldable pub use Maps.*
unfoldable pub use Lists.*
pub use Prim.Native.Nat.{ℕ, zero, suc, ◌+◌, ◌-◌, ◌*◌, ◌/◌, ◌%◌, ◌^◌, ◌≤◌, ◌<◌, max}
pub use mathlib.Core.Path.{◌≡◌, refl, sym, ap, ◌∙◌, subst}
pub use mathlib.Core.Logic.{◌≢◌, ◌↔◌, ◌⊎◌, inl, inr}
pub use mathlib.Core.Bool.{Bool, true, false, ◌&&◌, ◌||◌, not}
pub use mathlib.Core.Option.{Option, none, some}
pub use mathlib.Core.List.{List, [], ◌∷◌, ◌++◌, map}
pub use native.Mathlib.Omega.{arith}
