-- ===== src/Prelude.antt =====
-- The names that the other modules share: the libraries' names, tests on numbers, and string-keyed
-- dictionaries, which stand for Go's `map[string]T`.
mod Tests
mod Texts
mod Int
mod Maps
pub mod Order
pub mod Sorted
pub mod Layers
pub mod Prefixes
pub use Tests.*
pub use Texts.*
pub use Int.*
pub use Prim.Native.Nat.{ℕ, zero, suc, ◌+◌, ◌-◌, ◌*◌, ◌≤◌, ◌<◌}
pub use Prim.Native.String.{String}
pub use mathlib.Core.Path.{◌≡◌, refl, sym, ap, ◌∙◌, subst}
pub use mathlib.Core.Logic.{◌≢◌, ◌↔◌, ◌⊎◌, inl, inr}
pub use mathlib.Core.Bool.{Bool, true, false, ◌&&◌, ◌||◌, not}
pub use mathlib.Core.Option.{Option, none, some}
pub use mathlib.Core.List.{List, [], ◌∷◌, ◌++◌, map}
pub use native.Mathlib.Omega.{arith}
pub use text.Mathlib.Text.{◌==◌, starts_with}
pub use text.Mathlib.TextEquality.{eq_iff}
pub use text.Mathlib.TextPositions.{eq_refl}
pub use Maps.{Dict, keys, lookup-insert, lookup-merge}
unfoldable pub use Maps.{lookup, insert, merge, has_key, last}
