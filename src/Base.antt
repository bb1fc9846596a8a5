-- ===== src/Base.antt =====
-- The names that every component shares: the libraries' on native numbers, texts, lists and
-- options, passed on, and those of the children below.
mod Tests
mod Equal
mod Lists
mod Outcome
mod Texts
mod Clock
pub mod Assoc
pub mod Sort
pub mod Ordered
pub mod Strict
pub mod Parts
pub mod Bytes
pub mod TextOrder
pub mod Keeps
pub mod Utf8
pub mod Truncate
pub mod Trim
pub use Tests.*
pub use Equal.*
pub use Lists.*
unfoldable pub use Outcome.*
unfoldable pub use Texts.*
unfoldable pub use Clock.*
pub use Prim.Native.Nat.{ℕ, zero, suc, ◌+◌, ◌-◌, ◌*◌, ◌/◌, ◌%◌, ◌^◌, ◌≤◌, ◌<◌}
pub use Prim.Native.String.{String, len}
pub use mathlib.Core.Path.{◌≡◌, refl, sym, ap, ◌∙◌, subst}
pub use mathlib.Core.Logic.{◌≢◌, ◌↔◌, ◌⊎◌, inl, inr}
pub use mathlib.Core.Bool.{Bool, true, false, not, ◌&&◌, ◌||◌}
pub use mathlib.Core.Option.{Option, none, some}
pub use mathlib.Core.List.{List, [], ◌∷◌, ◌++◌, map}
pub use native.Mathlib.Omega.{arith}
pub use text.Mathlib.TextEquality.{eq_iff}
pub use text.Mathlib.Text.{starts_with}
