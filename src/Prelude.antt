-- ===== src/Prelude.antt =====
-- What the components share: library names passed on, Boolean tests, and tables of rows.
pub mod Tests
pub mod Table
pub mod Integers
pub mod Lists
pub mod Words
pub use Tests.{ltb, leb, nat_beq, if◌then◌else◌, ltb→lt, lt→ltb, le→ltb, nat_beq_iff}
pub use Tests.{Bool-cases, Option-cases, tests}
pub use Prim.Native.Nat.{ℕ, zero, suc, ◌+◌, ◌-◌, ◌*◌, ◌/◌, ◌%◌, ◌^◌, ◌≤◌, ◌<◌}
pub use Lists.{length}
pub use Integers.{ℤ, pos, negsuc, past}
pub use Prim.Native.String.{String}
pub use mathlib.Core.Path.{◌≡◌, refl, sym, ap, ◌∙◌, subst}
pub use mathlib.Core.Logic.{◌≢◌, ◌↔◌, ◌⊎◌, inl, inr}
pub use mathlib.Core.Bool.{Bool, true, false, not, ◌&&◌, ◌||◌}
pub use mathlib.Core.Option.{Option, none, some}
pub use mathlib.Core.List.{List, [], ◌∷◌, ◌++◌, map}
pub use native.Mathlib.Omega.{arith}
pub use text.Mathlib.Text.{◌==◌}
pub use text.Mathlib.TextEquality.{eq_iff}
pub use text.Mathlib.TextPositions.{eq_refl}
