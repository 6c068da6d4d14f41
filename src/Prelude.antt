-- ===== src/Prelude.antt =====
-- The names that the modules share: the libraries', passed on, and those of its children.
mod Tests
mod Lists
mod Maps
mod MapLaws
mod Results
mod Texts
pub use Tests.*
pub use Lists.*
unfoldable pub use Maps.{lookup, insert, remove, add, extend, discard}
pub use Maps.*
pub use MapLaws.*
pub use Results.*
unfoldable pub use Texts.{starts_with, text_ltb, to_ascii_uppercase}
pub use Texts.*
pub use Prim.Native.Nat.{ℕ, zero, suc, ◌+◌, ◌-◌, ◌*◌, ◌/◌, ◌%◌, ◌^◌, ◌≤◌, ◌<◌, min, max}
pub use mathlib.Core.Path.{◌≡◌, refl, sym, ap, ap₂, ◌∙◌}
pub use mathlib.Core.Logic.{◌≢◌, ◌↔◌, ◌⊎◌, inl, inr}
pub use mathlib.Core.Bool.{Bool, true, false, not, ◌&&◌, ◌||◌}
pub use mathlib.Core.Option.{Option, none, some}
pub use mathlib.Core.List.{List, [], ◌∷◌, ◌++◌, map, append_assoc, append-nil}
pub use native.Mathlib.Omega.{arith}

-- A text as its characters' code points.
abbrev pub Text : Type 0
Text = List ℕ
