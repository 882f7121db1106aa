-- ===== src/Base.antt =====
-- Names that the modules share: the libraries' names passed on, Boolean tests on native numbers,
-- lists, machine words, `std::unordered_map` and the outcome of a run.
mod Tests
mod Lists
mod Words
mod Maps
mod Outcomes
pub use Tests.*
pub use Lists.*
unfoldable pub use Words.*
pub use Maps.*
pub use Outcomes.*
pub use Prim.Native.Nat.{ℕ, zero, suc, ◌+◌, ◌-◌, ◌*◌, ◌/◌, ◌%◌, ◌^◌, ◌≤◌, ◌<◌, min, max}
pub use mathlib.Core.Path.{◌≡◌, refl, sym, ap, ◌∙◌, subst}
pub use mathlib.Core.Logic.{◌≢◌, ◌↔◌, ◌⊎◌, inl, inr}
pub use mathlib.Core.Bool.{Bool, true, false, not, ◌&&◌, ◌||◌}
pub use mathlib.Core.Option.{Option, none, some}
pub use mathlib.Core.List.{List, [], ◌∷◌, ◌++◌, map}
pub use native.Mathlib.Omega.{arith}
