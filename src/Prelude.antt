-- ===== src/Prelude.antt =====
-- The names that every module of the development shares: the libraries', passed on, the Boolean
-- tests on numbers (Prelude/Tests), table operations on lists of rows with their laws
-- (Prelude/Table, TableLaws, Rows) and results with errors (Prelude/Results).
mod Tests
mod Table
mod TableLaws
mod Rows
mod Results
pub use Tests.*
pub use Table.*
pub use TableLaws.*
pub use Rows.*
pub use Results.*
pub use Prim.Native.Nat.{ℕ, zero, suc, ◌+◌, ◌-◌, ◌*◌, ◌/◌, ◌%◌, ◌^◌, ◌≤◌, ◌<◌}
pub use Prim.Native.String.{String, ◌++◌ as ◌<>◌}
pub use mathlib.Core.Path.{◌≡◌, refl, sym, ap, ◌∙◌}
pub use mathlib.Core.Logic.{◌≢◌, ◌↔◌, ◌⊎◌, inl, inr}
pub use mathlib.Core.Bool.{Bool, true, false, ◌&&◌, ◌||◌, not}
pub use mathlib.Core.Option.{Option, none, some}
pub use mathlib.Core.List.{List, [], ◌∷◌, ◌++◌, map}
pub use native.Mathlib.Omega.{arith}
pub use text.Mathlib.Text.{◌==◌}
pub use text.Mathlib.TextEquality.{eq_iff}
