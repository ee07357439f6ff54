-- ===== src/Base.antt =====
-- The names that every module shares: the libraries', passed on, and those of the children.
-- No child models code of the repository, but for `Exception`, which lists what its code raises.
mod Tests
mod Lists
mod Equality
mod Exception
pub mod Dict
pub mod Int
pub mod Base64
pub mod Json
pub mod Bits
pub mod Nodup
pub mod Text
pub use Tests.*
pub use Lists.*
unfoldable pub use Equality.*
pub use Exception.*
pub use Prim.Native.Nat.{ℕ, zero, suc, ◌+◌, ◌-◌, ◌*◌, ◌≤◌, ◌<◌}
pub use Prim.Native.String.{String, ◌++◌ as ◌<>◌}
pub use mathlib.Core.Path.{◌≡◌, refl, sym, ap, ◌∙◌, subst}
pub use mathlib.Core.Logic.{◌≢◌, ◌↔◌, ◌⊎◌, inl, inr}
pub use mathlib.Core.Bool.{Bool, true, false, ◌&&◌, ◌||◌, not}
pub use mathlib.Core.Option.{Option, none, some}
pub use mathlib.Core.List.{List, [], ◌∷◌, ◌++◌, map}
pub use native.Mathlib.Omega.{arith}
