-- ===== src/Prelude.antt =====
-- What the other modules share: names of the libraries, passed on, and the tests, lists and texts
-- of the children.
mod Tests
mod Lists
mod Texts
mod Sorting
mod Rowwise
mod Members
pub use Tests.*
pub use Lists.*
pub use Texts.*
pub use Sorting.*
pub use Rowwise.*
pub use Members.*
unfoldable pub use Texts.{decimal, decimal_padded, strip, take_text, contains_text}
unfoldable pub use Sorting.{sort_with}
pub use Prim.Native.Nat.{ℕ, zero, suc, ◌+◌, ◌-◌, ◌*◌, ◌/◌, ◌%◌, ◌≤◌, ◌<◌, min, max}
pub use Prim.Native.String.{String}
pub use mathlib.Core.Path.{◌≡◌, refl, sym, ap, ◌∙◌}
pub use mathlib.Core.Logic.{◌≢◌, ◌↔◌, ◌⊎◌, inl, inr}
pub use mathlib.Core.Bool.{Bool, true, false, ◌&&◌, ◌||◌, not, false≢true}
pub use mathlib.Core.Option.{Option, none, some}
pub use mathlib.Core.List.{List, [], ◌∷◌, ◌++◌, map}
pub use native.Mathlib.Omega.{arith}
pub use text.Mathlib.Text.{◌==◌ as str_eq, starts_with}
pub use text.Mathlib.TextEquality.{eq_iff}
pub use text.Mathlib.TextPositions.{eq_refl}
