-- ===== src/Prelude.antt =====
-- What the other modules share: names of the libraries, passed on, and tests, lists, integers,
-- bytes and results over the native numbers.
mod Tests
mod Lists
mod Splice
mod Int
mod Bytes
mod Divide
pub use Tests.*
unfoldable pub use Lists.*
unfoldable pub use Splice.*
unfoldable pub use Int.*
unfoldable pub use Bytes.*
unfoldable pub use Divide.*
pub use Prim.Native.Nat.{ℕ, zero, suc, ◌+◌, ◌-◌, ◌*◌, ◌/◌, ◌%◌, ◌^◌, ◌≤◌, ◌<◌, min, max}
pub use mathlib.Core.Path.{◌≡◌, refl, sym, ap, ap₂, ◌∙◌}
pub use mathlib.Core.Logic.{◌≢◌, ◌↔◌, ◌⊎◌, inl, inr}
pub use mathlib.Core.Bool.{Bool, true, false, not, ◌&&◌, ◌||◌}
pub use mathlib.Core.Option.{Option, none, some}
pub use mathlib.Core.List.{List, [], ◌∷◌, ◌++◌, map}
pub use native.Mathlib.Omega.{arith}
