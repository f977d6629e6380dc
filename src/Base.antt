-- ===== src/Base.antt =====
-- Names that every other module shares: those of the libraries, passed on, and those of the
-- modules below (Boolean tests, C integers, arrays, searches and counts over an index range).
mod Bools
mod Ints
mod Arrays
mod Scan
mod Count
unfoldable pub use Bools.*
unfoldable pub use Ints.*
unfoldable pub use Arrays.*
unfoldable pub use Scan.*
unfoldable pub use Count.*
pub use Prim.Native.Nat.{ℕ, zero, suc, ◌+◌, ◌-◌, ◌*◌, ◌/◌, ◌%◌, ◌^◌, ◌≤◌, ◌<◌, min, max}
pub use mathlib.Core.Path.{◌≡◌, refl, sym, ap, ◌∙◌, subst, fun_ext}
pub use mathlib.Core.Logic.{◌≢◌, ◌↔◌, ◌⊎◌, inl, inr}
pub use mathlib.Core.Bool.{Bool, true, false, not, ◌&&◌, ◌||◌}
pub use mathlib.Core.Option.{Option, none, some}
pub use mathlib.Core.List.{List, [], ◌∷◌, ◌++◌, map}
pub use native.Mathlib.Omega.{arith}
unfoldable pub use native.Mathlib.Decide.{dec_lt, dec_le, ℕ_discrete}
