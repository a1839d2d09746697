-- ===== src/Prelude.antt =====
-- The names that the other modules share: the libraries', passed on, and those of its children.
mod Tests
mod Lists
mod Results
mod Keys
pub mod Occurs
mod Texts
pub mod Effects
pub use Tests.*
pub use Lists.*
pub use Results.*
pub use Keys.{
  Eq, nat_eq, string_eq, map_get-map_set, beq_refl, contains, Distinct, map_keys, map_values,
  Distinct-map_set,
}
pub use Texts.{Text, codes, text_eq, text_eq_iff, text_key}
unfoldable pub use Keys.{map_get, map_set, map_delete}
pub use Prim.Native.Nat.{ℕ, zero, suc, ◌+◌, ◌-◌, ◌*◌, ◌/◌, ◌%◌, ◌^◌, ◌≤◌, ◌<◌, min, max}
pub use mathlib.Core.Path.{◌≡◌, refl, sym, ap, ◌∙◌}
pub use mathlib.Core.Logic.{◌≢◌, ◌↔◌, ◌⊎◌, inl, inr}
pub use mathlib.Core.Bool.{Bool, true, false, not, ◌&&◌, ◌||◌}
pub use mathlib.Core.Option.{Option, none, some}
pub use mathlib.Core.List.{List, [], ◌∷◌, ◌++◌, map, append-nil, append_assoc}
pub use native.Mathlib.Omega.{arith}
