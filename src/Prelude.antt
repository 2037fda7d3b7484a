-- ===== src/Prelude.antt =====
-- The names that the other modules share: those of the libraries, passed on, and those of the
-- children: tests and conditionals, texts, lists of rows and their members, and request handlers with their errors.
mod Tests
mod Texts
mod Rows
mod Pairs
mod Lists
mod Keys
mod Actions
mod Maps
pub mod Orm
pub use Tests.*
unfoldable pub use Texts.*
pub use Rows.*
pub use Pairs.*
pub use Lists.*
pub use Keys.*
pub use Maps.*
pub use Actions.*
pub use Prim.Native.Nat.{ℕ, zero, suc, ◌+◌, ◌-◌, ◌*◌, ◌/◌, ◌%◌, ◌≤◌, ◌<◌}
pub use Prim.Native.String.{String}
pub use mathlib.Core.Path.{◌≡◌, refl, sym, ap, ◌∙◌}
pub use mathlib.Core.Logic.{◌≢◌, ◌↔◌, ◌⊎◌, inl, inr}
pub use mathlib.Core.Bool.{Bool, true, false, not, ◌&&◌, ◌||◌}
pub use mathlib.Core.Option.{Option, none, some}
pub use mathlib.Core.List.{List, [], ◌∷◌, ◌++◌, map}
pub use native.Mathlib.Omega.{arith}
pub use text.Mathlib.TextEquality.{eq_iff}
