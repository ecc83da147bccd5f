-- ===== src/Prelude.antt =====
-- The names that the other modules share: the libraries', passed on, and those of the children.
mod Tests
mod Lists
mod Assoc
mod Outcome
mod Loops
mod Text
pub use Tests.*
pub use Lists.*
unfoldable pub use Assoc.{lookup, erase, bytes_discrete}
pub use Assoc.{
  Distinct, lookup-erase, lookup-append, lookup-snoc, Distinct-erase, Distinct-snoc, erase_absent,
}
pub use Outcome.*
unfoldable pub use Loops.{iterate}
pub use Loops.{iterate_inv, iterate_end, iterate_end_inv}
unfoldable pub use Text.{print, parse_usize, split_by, join, starts_with, contains_text}
pub use Text.{text, parse_usize-print}
pub use Prim.Native.Nat.{ℕ, zero, suc, ◌+◌, ◌-◌, ◌*◌, ◌/◌, ◌%◌, ◌^◌, ◌≤◌, ◌<◌, min, max}
pub use mathlib.Core.Path.{◌≡◌, refl, sym, ap, ◌∙◌, subst, fun_ext}
pub use mathlib.Core.Logic.{◌≢◌, ◌↔◌, ◌⊎◌, inl, inr, ite, if_pos, if_neg}
pub use mathlib.Core.Bool.{Bool, true, false, not, ◌&&◌, ◌||◌}
pub use mathlib.Core.Option.{Option, none, some}
pub use mathlib.Core.List.{List, [], ◌∷◌, ◌++◌, map, filter}
pub use native.Mathlib.Omega.{arith}
unfoldable pub use native.Mathlib.Decide.{dec_lt, dec_le, ℕ_discrete}
