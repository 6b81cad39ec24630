-- ===== src/Base.antt =====
-- The names that the other modules share: the libraries', passed on, and those of the children.
mod Tests
mod Lists
mod Texts
mod Ints
mod Maps
pub use Tests.*
pub use Lists.*
pub use Ints.*
unfoldable pub use Maps.{find_at, put_at, without}
pub use Maps.{find-put, find-without}
unfoldable pub use Texts.{text_eq, text_lt}
pub use Texts.{
  Text, codes, is_empty, text_eq_comm, text_eq_refl, text_eq→≡, text_eq_iff, text_lt_irrefl,
  text_lt_trans, text_lt_asymm, text_lt_total,
}
pub use Prim.Native.Nat.{ℕ, zero, suc, ◌+◌, ◌-◌, ◌*◌, ◌/◌, ◌%◌, ◌^◌, ◌≤◌, ◌<◌}
pub use mathlib.Core.Path.{◌≡◌, refl, sym, ap, subst, ◌∙◌}
pub use mathlib.Core.Logic.{◌≢◌, ◌↔◌, ◌⊎◌, inl, inr}
pub use mathlib.Core.Bool.{Bool, true, false, true≢false, false≢true, not, ◌&&◌, ◌||◌}
pub use mathlib.Core.Option.{Option, none, some}
pub use mathlib.Core.List.{List, [], ◌∷◌, ◌++◌, map, Memᴰ}
pub use native.Mathlib.Omega.{arith}
