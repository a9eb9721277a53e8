-- ===== src/Prelude.antt =====
-- The names that the other modules share: the libraries', passed on, and those of the children.
mod Tests
mod Lists
mod Texts
mod Members
mod Finding
pub mod Options
pub mod Tries
pub mod Int
mod Splitting
mod Stripping
mod Affixes
pub use Tests.*
pub use Lists.*
unfoldable pub use Texts.{
  Text, codes, text_eq, truthy, in_range, is_space, drop_while, rstrip, strip, lower, starts_with,
  ends_with, split, join, words,
}
pub use Texts.{text_eq_refl, text_eq_iff}
pub use Members.*
pub use Finding.*
pub use Splitting.*
pub use Affixes.*
pub use Stripping.{rstrip_idem, strip_idem}
pub use Prim.Native.Nat.{ℕ, zero, suc, ◌+◌, ◌-◌, ◌*◌, ◌/◌, ◌%◌, ◌^◌, ◌≤◌, ◌<◌, min}
pub use Prim.Native.String.{String}
pub use mathlib.Core.Path.{◌≡◌, refl, sym, ap, ◌∙◌, subst}
pub use mathlib.Core.Logic.{◌≢◌, ◌↔◌, ◌⊎◌, inl, inr}
pub use mathlib.Core.Bool.{Bool, true, false, not, ◌&&◌, ◌||◌}
pub use mathlib.Core.Option.{Option, none, some}
pub use mathlib.Core.List.{List, [], ◌∷◌, ◌++◌, map, reverse, Mem}
pub use native.Mathlib.Omega.{arith}
