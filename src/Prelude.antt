-- ===== src/Prelude.antt =====
-- The names that the modules share: the libraries', passed on, and those of the children.
mod Tests
mod Lists
mod Text
pub mod Result
pub mod Exec
pub mod Order
pub mod BTreeMap
pub mod HashMap
pub mod Decimal
pub use Tests.*
pub use Lists.{
  length, is_empty, length-append, All, All-Memᴰ, All-append, All-always, All-map, length-replicate,
  All-replicate,
}
unfoldable pub use Lists.{replicate}
pub use Text.{Str, text, str_eq_refl, str_eq_sound, str_eq_iff}
unfoldable pub use Text.{str_eq}
pub use Prim.Native.Nat.{ℕ, zero, suc, ◌+◌, ◌-◌, ◌*◌, ◌/◌, ◌%◌, ◌^◌, ◌≤◌, ◌<◌, min, max}
pub use mathlib.Core.Path.{◌≡◌, refl, sym, ap, ◌∙◌, subst, fun_ext}
pub use mathlib.Core.Logic.{◌≢◌, ◌↔◌, ◌⊎◌, inl, inr}
pub use mathlib.Core.Bool.{Bool, true, false, ◌&&◌, ◌||◌, not}
pub use mathlib.Core.Option.{Option, none, some}
pub use mathlib.Core.List.{List, [], ◌∷◌, ◌++◌, map}
pub use native.Mathlib.Omega.{arith}
