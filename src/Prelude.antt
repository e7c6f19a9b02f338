-- ===== src/Prelude.antt =====
-- The names that the other modules share: the libraries', passed on, and those of the children.
mod Tests
mod Lists
mod Filter
pub mod Int
pub mod Bytes
pub use Tests.*
pub use Lists.{
  length, take, drop, get_elem?, head?, get_last?, List-cases, All, All-mono, All-append,
  All-filter, length-append, take-append-drop, length-take, length-drop, take-append, drop-append,
  take-append_le, drop-append_le, take-append_ge, take-nil, take-take_le, slice-take, drop-take,
  take_all, drop-add, length-filter-le, All-left, All-of, All-zip,
}
unfoldable pub use Lists.{filter, any}
pub use Filter.{
  Mem-filter, filter-passes, Mem-filter_intro, filter_none, All-passes, All-map, filter-filter,
  filter-cong,
}
pub use Prim.Native.Nat.{ℕ, zero, suc, ◌+◌, ◌-◌, ◌*◌, ◌/◌, ◌%◌, ◌^◌, ◌≤◌, ◌<◌, min}
pub use Prim.Native.String.{String}
pub use mathlib.Core.Path.{◌≡◌, refl, sym, ap, ap₂, ◌∙◌, subst}
pub use mathlib.Core.Logic.{◌≢◌, ◌↔◌, ◌⊎◌, inl, inr}
pub use mathlib.Core.Bool.{Bool, true, false, not, ◌&&◌, ◌||◌}
pub use mathlib.Core.Option.{Option, none, some}
pub use mathlib.Core.List.{List, [], ◌∷◌, ◌++◌, map, append-nil, append_assoc, Memᴰ}
pub use native.Mathlib.Omega.{arith}
