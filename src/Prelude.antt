-- ===== src/Prelude.antt =====
-- Names that all modules share: the libraries', passed on, and those of the children: Boolean
-- tests, lists over the native numbers, texts as lists of code points, dictionaries.
mod Tests
mod Lists
mod Texts
mod Strip
mod Trim
mod Span
mod Dicts
mod Pathlib
pub use Tests.*
pub use Lists.*
unfoldable pub use Texts.*
unfoldable pub use Strip.*
pub use Trim.*
unfoldable pub use Span.*
unfoldable pub use Dicts.*
unfoldable pub use Pathlib.*
pub use Prim.Native.Nat.{ℕ, zero, suc, ◌+◌, ◌-◌, ◌*◌, ◌/◌, ◌%◌, ◌≤◌, ◌<◌, min, max}
pub use Prim.Native.String.{String}
pub use mathlib.Core.Path.{◌≡◌, refl, sym, ap, ◌∙◌, subst, ◌≡⟨◌⟩◌, ◌∎}
pub use mathlib.Core.Logic.{◌≢◌, ◌↔◌, ◌⊎◌, inl, inr}
pub use mathlib.Core.Bool.{Bool, true, false, not, ◌&&◌, ◌||◌}
pub use mathlib.Core.Option.{Option, none, some}
pub use mathlib.Core.List.{
  List, [], ◌∷◌, ◌++◌, map, reverse, reverse-cons, append_assoc, append-nil,
}
pub use native.Mathlib.Omega.{arith}
