-- ===== src/Common.antt =====
-- What the other modules share: the libraries' names, passed on, and those of six children. They
-- translate no code of the repository but the parts of the language's own library that it calls.
pub mod Tests
pub mod Lists
pub mod Texts
pub mod Decimal
pub mod Values
pub mod Sort
pub use Tests.*
pub use Lists.*
pub use Values.*
unfoldable pub use Sort.*
unfoldable pub use Texts.*
unfoldable pub use Decimal.*
pub use Prim.Native.Nat.{ℕ, zero, suc, ◌+◌, ◌-◌, ◌*◌, ◌/◌, ◌%◌, ◌^◌, ◌≤◌, ◌<◌}
pub use Prim.Native.String.{String}
pub use mathlib.Core.Path.{◌≡◌, refl, sym, ap, ◌∙◌, subst}
pub use mathlib.Core.Logic.{◌≢◌, ◌↔◌, ◌⊎◌, inl, inr}
pub use mathlib.Core.Bool.{Bool, true, false, ◌&&◌, ◌||◌, not}
pub use mathlib.Core.Option.{Option, none, some}
pub use mathlib.Core.List.{List, [], ◌∷◌, ◌++◌, map, reverse, append_assoc, append-nil}
pub use native.Mathlib.Omega.{arith}
