-- ===== src/Common.antt =====
-- The names that the other modules share: the libraries', passed on, Boolean tests on the
-- native numbers, lists measured by them, and Python's ordered dictionaries.
mod Tests
mod Lists
mod Texts
mod Paging
pub mod Dict
pub use Tests.*
pub use Lists.*
pub use Texts.{Text, codes, is_space, strip}
unfoldable pub use Texts.{Text-discrete, decimal}
pub use Paging.*
pub use Prim.Native.Nat.{ℕ, zero, suc, ◌+◌, ◌-◌, ◌*◌, ◌/◌, ◌%◌, ◌≤◌, ◌<◌, min, max}
pub use mathlib.Core.Path.{◌≡◌, refl, sym, ap, ◌∙◌}
pub use mathlib.Core.Logic.{◌≢◌, ◌↔◌, ◌⊎◌, inl, inr, if_pos, if_neg}
unfoldable pub use mathlib.Core.Logic.{ite}
pub use mathlib.Core.Bool.{Bool, true, false, ◌&&◌, ◌||◌, not}
pub use mathlib.Core.Option.{Option, none, some}
pub use mathlib.Core.List.{List, [], ◌∷◌, ◌++◌, map}
pub use native.Mathlib.Omega.{arith}
unfoldable pub use native.Mathlib.Decide.{ℕ_discrete}
