-- ===== src/Prelude.antt =====
-- The names that the modules share: the library's, passed on, and those of the children
-- (tests and conditionals, lists over the native numbers, results with exceptions).
mod Tests
mod Lists
mod Results
mod Maps
pub use Tests.*
pub use Lists.*
pub use Results.*
pub use Maps.*
pub use Prim.Native.Nat.{ℕ, zero, suc, ◌+◌, ◌-◌, ◌*◌, ◌/◌, ◌%◌, ◌^◌, ◌≤◌, ◌<◌, min}
pub use mathlib.Core.Path.{◌≡◌, refl, sym, ap, subst, ◌∙◌}
pub use mathlib.Core.Logic.{◌≢◌, ◌↔◌, ◌⊎◌, inl, inr}
pub use mathlib.Core.Bool.{Bool, true, false, not, ◌&&◌, ◌||◌}
pub use mathlib.Core.Option.{Option, none, some}
pub use mathlib.Core.List.{
  List, [], ◌∷◌, ◌++◌, map, append-nil, append_assoc, head-eq_of_cons-eq, tail-eq_of_cons-eq,
}
pub use native.Mathlib.Omega.{arith}
