-- ===== src/Common.antt =====
-- What the modules share: the libraries' names, tests, equality of enums, results, lists and sorting.
mod Tests
mod Equality
mod Outcomes
mod Lists
mod Maps
mod Sort
mod Pairs
mod Filter
pub use Tests.*
unfoldable pub use Maps.{get, insert}
pub use Maps.{get-insert, keys-insert}
unfoldable pub use Sort.{insert_by_key, sort_by_key}
pub use Sort.{IsSortedBy, sort_by_key-perm, sort_by_key-IsSortedBy, In-sort_by_key}
pub use Pairs.*
unfoldable pub use Filter.{filter}
pub use Filter.{filter-append, filter-sort_by_key}
pub use Lists.*
pub use Outcomes.*
pub use Equality.*
pub use Prim.Native.Nat.{ℕ, zero, suc, ◌+◌, ◌-◌, ◌%◌, ◌≤◌, ◌<◌}
pub use mathlib.Core.Path.{◌≡◌, refl, sym, ap, subst, ◌∙◌}
pub use mathlib.Core.Logic.{◌≢◌, ◌↔◌, ◌⊎◌, inl, inr}
pub use mathlib.Core.Bool.{Bool, true, false, not, ◌&&◌, ◌||◌}
pub use mathlib.Core.Option.{Option, none, some}
pub use mathlib.Core.List.{List, [], ◌∷◌, ◌++◌, map, append-nil, append_assoc}
pub use native.Mathlib.Omega.{arith}
