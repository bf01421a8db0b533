-- ===== src/Base.antt =====
-- The names that every module shares: the libraries', passed on, and those of the child modules
-- (Boolean tests, lists over native numbers, text as lists of code units).
mod Tests
mod Lists
mod Strings
mod Keys
mod Objects
pub use Tests.*
pub use Lists.*
pub use Keys.*
pub use Objects.*
unfoldable pub use Strings.*
pub use Prim.Native.Nat.{ℕ, zero, suc, ◌+◌, ◌-◌, ◌*◌, ◌/◌, ◌%◌, ◌^◌, ◌≤◌, ◌<◌, min}
pub use mathlib.Core.Path.{◌≡◌, refl, sym, ap, ◌∙◌, subst}
pub use mathlib.Core.Logic.{◌≢◌, ◌↔◌, ◌⊎◌, inl, inr}
pub use mathlib.Core.Bool.{Bool, true, false, not, ◌&&◌, ◌||◌}
pub use mathlib.Core.Option.{Option, none, some}
pub use mathlib.Core.List.{List, [], ◌∷◌, ◌++◌, map, map-map, map-id, foldl}
pub use native.Mathlib.Omega.{arith}
