-- ===== src/Prelude.antt =====
-- The names that the other modules share: those of the libraries, passed on, and those of the
-- children Tests (Boolean tests), Text (strings), Lists and Updates (tables), Sorting (ORDER BY and
-- LIMIT), Codes (strings that are looked into) and Errors (fallible code).
mod Tests
mod Text
mod Lists
mod Errors
mod Codes
mod Sorting
mod Updates
unfoldable pub use Tests.*
unfoldable pub use Text.*
unfoldable pub use Lists.*
unfoldable pub use Errors.*
unfoldable pub use Codes.*
unfoldable pub use Sorting.*
unfoldable pub use Updates.*
pub use Prim.Native.Nat.{ℕ, zero, suc, ◌+◌, ◌-◌, ◌*◌, ◌/◌, ◌%◌, ◌≤◌, ◌<◌}
pub use Prim.Native.String.{String}
pub use mathlib.Core.Path.{◌≡◌, refl, sym, ap, ◌∙◌}
pub use mathlib.Core.Logic.{◌≢◌, ◌↔◌, ◌⊎◌, inl, inr}
pub use mathlib.Core.Bool.{Bool, true, false, ◌&&◌, ◌||◌, not}
pub use mathlib.Core.Option.{Option, none, some}
pub use mathlib.Core.List.{List, [], ◌∷◌, ◌++◌, map, Memᴰ}
pub use native.Mathlib.Omega.{arith}
