-- ===== src/Prelude.antt =====
-- The names that the other modules share: the libraries', passed on, and those of the children
-- (Boolean tests, Go's `==`, lists over the native numbers, Go maps, errors and results).
mod Tests
mod Lists
mod GoMap
mod Errors
pub use Tests.*
pub use Lists.*
pub use Errors.*
pub use GoMap.{Map, lookup-insert, lookup-delete, insert_present, delete_absent}
pub use GoMap.{is_empty, map_laws}
unfoldable pub use GoMap.{lookup, insert, delete}
pub use Prim.Native.Nat.{ℕ, zero, suc, ◌+◌, ◌-◌, ◌*◌, ◌%◌, ◌^◌, ◌≤◌, ◌<◌}
pub use Prim.Native.String.{String}
pub use mathlib.Core.Path.{◌≡◌, refl, sym, ap, subst, ◌∙◌}
pub use mathlib.Core.Logic.{◌≢◌, ◌↔◌, ◌⊎◌, inl, inr}
pub use mathlib.Core.Bool.{Bool, true, false, ◌&&◌, ◌||◌, not}
pub use mathlib.Core.Option.{Option, none, some}
pub use mathlib.Core.List.{List, [], ◌∷◌, ◌++◌, map}
pub use native.Mathlib.Omega.{arith}
unfoldable pub use Errors.{message}
unfoldable pub use Lists.{any}
unfoldable pub use Tests.{String-discrete}
unfoldable pub use native.Mathlib.Decide.{dec_lt, ℕ_discrete}
