-- ===== src/Common.antt =====
-- The names that the other modules share: the libraries', passed on, and those of the children.
mod Tests
mod Lists
mod Ints
mod Outcome
mod Text
mod Spaces
mod Keyed
pub use Tests.*
pub use Lists.*
pub use Ints.*
pub use Outcome.*
pub use Text.*
pub use Keyed.*
unfoldable pub use Spaces.{trim_space, trim_left, trim_right, has_prefix, trim_prefix}
pub use Spaces.{is_space_byte}
unfoldable pub use Spaces.{lead_width, last_width}
pub use Spaces.Laws.{
  Trimmed, trim_space-Trimmed, trim_space_of_Trimmed, trim_space_idem, trim_space-nil,
  trim_space-blank,
}
pub use Prim.Native.Nat.{
  ℕ, zero, suc, ◌+◌, ◌-◌, ◌*◌, ◌/◌, ◌%◌, ◌^◌, ◌≤◌, ◌<◌, min, max, compare, Ordering,
}
pub use mathlib.Core.Path.{◌≡◌, refl, sym, ap, ap₂, ◌∙◌, subst, fun_ext, ◌≡⟨◌⟩◌, ◌∎}
pub use mathlib.Core.Logic.{◌≢◌, ◌↔◌, ◌⊎◌, inl, inr}
pub use mathlib.Core.Bool.{Bool, true, false, not, ◌&&◌, ◌||◌}
pub use mathlib.Core.Option.{Option, none, some}
pub use mathlib.Core.List.{
  List, [], ◌∷◌, ◌++◌, map, reverse, foldl, append-nil, append_assoc, reverse-append,
  reverse-reverse,
}
pub use native.Mathlib.Omega.{arith}
unfoldable pub use native.Mathlib.Decide.{dec_lt, dec_le, ℕ_discrete}
