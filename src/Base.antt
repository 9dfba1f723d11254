-- ===== src/Base.antt =====
-- The names that the other modules share: those of the libraries, passed on, and the Boolean
-- tests, lists and bit masks of the children.
mod Tests
mod Lists
mod Bits
mod Maps
mod KeyMaps
pub use Tests.*
pub use Lists.*
pub use Bits.*
unfoldable pub use Maps.{lookup, insert, delete}
unfoldable pub use KeyMaps.{find_key, erase_key, set_key}
pub use KeyMaps.{Decides, find-erase, find-set}
pub use Maps.{lookup-insert, lookup-delete}
pub use Prim.Native.Nat.{
  ℕ, zero, suc, ◌+◌, ◌-◌, ◌*◌, ◌/◌, ◌%◌, ◌^◌, ◌≤◌, ◌<◌, min, max, bit_and, bit_or, bit_xor,
}
pub use mathlib.Core.Path.{◌≡◌, refl, sym, ap, subst, ◌∙◌}
pub use mathlib.Core.Logic.{◌≢◌, ◌↔◌, ◌⊎◌, inl, inr}
pub use mathlib.Core.Bool.{Bool, true, false, not, ◌&&◌, ◌||◌}
pub use mathlib.Core.Option.{Option, none, some}
pub use mathlib.Core.List.{List, [], ◌∷◌, ◌++◌, map, append-nil, append_assoc}
pub use native.Mathlib.Omega.{arith}
