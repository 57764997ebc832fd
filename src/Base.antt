-- ===== src/Base.antt =====
-- What the other modules share: names of the libraries passed on, Boolean tests, the exceptions of
-- runtime_protocol/errors.py as a result type, and tables with the SQL statements used on them.
mod Tests
mod Errors
mod Table
mod Lists
mod Outcomes
pub use Tests.*
pub use Errors.*
pub use Outcomes.*
pub use Lists.*
unfoldable pub use Table.{first, select, update, count, any, all, upsert}
pub use Table.{All, any-implied, any-all, any-update, first-update, All-update, first-holds}
pub use Prim.Native.Nat.{ℕ, zero, suc, ◌+◌, ◌-◌, ◌*◌, ◌≤◌, ◌<◌, max}
pub use mathlib.Core.Path.{◌≡◌, refl, sym, ap, subst, ◌∙◌}
pub use mathlib.Core.Logic.{◌≢◌, ◌↔◌, ◌⊎◌, inl, inr}
pub use mathlib.Core.Bool.{Bool, true, false, not, ◌&&◌, ◌||◌}
pub use mathlib.Core.Option.{Option, none, some}
pub use mathlib.Core.List.{List, [], ◌∷◌, ◌++◌, map}
pub use native.Mathlib.Omega.{arith}
