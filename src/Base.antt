-- ===== src/Base.antt =====
-- Names that all modules share: the libraries' ones, passed on, and those of the children.
mod Tests
mod Lists
mod Text
mod Maps
mod Strings
mod Sorting
mod Orders
pub use Tests.*
pub use Lists.*
pub use Text.*
pub use Maps.*
unfoldable pub use Strings.*
unfoldable pub use Sorting.*
pub use Orders.*
pub use Prim.Native.Nat.{ℕ, zero, suc, ◌+◌, ◌-◌, ◌*◌, ◌/◌, ◌%◌, ◌^◌, ◌≤◌, ◌<◌}
pub use Prim.Native.String.{String}
pub use mathlib.Core.Path.{◌≡◌, refl, sym, ap, ◌∙◌, subst}
pub use mathlib.Core.Logic.{◌≢◌, ◌↔◌, ◌⊎◌, inl, inr}
pub use mathlib.Core.Bool.{Bool, true, false, not, ◌&&◌, ◌||◌}
pub use mathlib.Core.Option.{Option, none, some}
pub use mathlib.Core.List.{List, [], ◌∷◌, ◌++◌, map, append-nil, append_assoc}
pub use native.Mathlib.Omega.{arith}
