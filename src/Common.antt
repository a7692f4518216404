-- ===== src/Common.antt =====
-- Shared by all modules: library names passed on, Boolean tests, lists, and a table of rows as the
-- program's SQL statements read and write it.
mod Booleans
mod Lists
mod Tables
pub mod Sorting
pub mod Selecting
pub mod Members
pub use Booleans.*
pub use Lists.*
pub use Tables.*
unfoldable pub use Tables.{select, update, delete, first, sort_insert, sort_by}
pub use Prim.Native.Nat.{ℕ, zero, suc, ◌+◌, ◌-◌, ◌*◌, ◌≤◌, ◌<◌, min, max}
pub use mathlib.Core.Path.{◌≡◌, refl, sym, ap, ◌∙◌, subst}
pub use mathlib.Core.Logic.{◌≢◌, ◌↔◌, ◌⊎◌, inl, inr}
pub use mathlib.Core.Bool.{Bool, true, false, not, ◌&&◌, ◌||◌}
pub use mathlib.Core.Option.{Option, none, some}
pub use mathlib.Core.List.{List, [], ◌∷◌, ◌++◌, map}
pub use native.Mathlib.Omega.{arith}
