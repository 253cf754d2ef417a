-- ===== src/Base.antt =====
-- The names that every module shares: the libraries', passed on, Boolean tests, lists measured by
-- native numbers, Go strings as lists of bytes, and results.
mod Tests
mod Lists
mod Results
mod Integers
mod Maps
mod Texts
pub use Tests.*
unfoldable pub use Lists.*
pub use Results.*
unfoldable pub use Maps.*
unfoldable pub use Texts.*
unfoldable pub use Integers.*
pub use Prim.Native.Nat.{ℕ, zero, suc, ◌+◌, ◌-◌, ◌*◌, ◌/◌, ◌%◌, ◌^◌, ◌≤◌, ◌<◌, min}
pub use mathlib.Core.Path.{◌≡◌, refl, sym, ap, ◌∙◌}
pub use mathlib.Core.Logic.{◌≢◌, ◌↔◌, ◌⊎◌, inl, inr}
pub use mathlib.Core.Bool.{Bool, true, false, not, ◌&&◌, ◌||◌, false≢true}
pub use mathlib.Core.Option.{Option, none, some}
pub use mathlib.Core.List.{
  List, [], ◌∷◌, ◌++◌, append-nil, append_assoc, head-eq_of_cons-eq, tail-eq_of_cons-eq,
}
pub use native.Mathlib.Omega.{arith}
