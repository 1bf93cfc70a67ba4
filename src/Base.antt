-- ===== src/Base.antt =====
-- Names and helpers that every component shares: Boolean tests, lists measured by native numbers,
-- strings as code points, Go's maps, fixed-width words and the result type of fallible code.
pub mod Tests
pub mod Lists
pub mod Eq
pub mod Map
pub mod Results
pub mod Text
pub mod Net
pub mod Sort
pub mod Bytes
pub mod Encode
pub use Tests.*
pub use Lists.*
pub use Results.*
unfoldable pub use Eq.{Str, codes, ◌==ₛ◌}
pub use Prim.Native.Nat.{ℕ, zero, suc, ◌+◌, ◌-◌, ◌*◌, ◌/◌, ◌%◌, ◌^◌, ◌≤◌, ◌<◌}
pub use mathlib.Core.Path.{◌≡◌, refl, sym, ap, ◌∙◌}
pub use mathlib.Core.Logic.{◌≢◌, ◌↔◌, ◌⊎◌, inl, inr}
pub use mathlib.Core.Bool.{Bool, true, false, not, ◌&&◌, ◌||◌}
pub use mathlib.Core.Option.{Option, none, some}
pub use mathlib.Core.List.{List, [], ◌∷◌, ◌++◌, map}
pub use native.Mathlib.Omega.{arith}
