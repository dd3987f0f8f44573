-- ===== src/Prelude.antt =====
-- What the other modules share: names of the libraries, passed on; tests on numbers; the result of
-- code that may panic; lists under native indices; the association lists that stand for `HashMap`.
mod Tests
mod Lists
mod Panic
mod Channels
pub mod HashMap
pub mod HashSet
pub use Tests.*
pub use Lists.*
pub use Panic.*
pub use Channels.*
pub use Prim.Native.Nat.{ℕ, zero, suc, ◌+◌, ◌-◌, ◌*◌, ◌/◌, ◌%◌, ◌^◌, ◌≤◌, ◌<◌}
pub use mathlib.Core.Path.{◌≡◌, refl, sym, ap, subst, ◌∙◌}
pub use mathlib.Core.Logic.{◌≢◌, ◌↔◌, ◌⊎◌, inl, inr, ite}
pub use mathlib.Core.Bool.{Bool, true, false, not, ◌&&◌, ◌||◌}
pub use mathlib.Core.Option.{Option, none, some}
pub use mathlib.Core.List.{List, [], ◌∷◌, ◌++◌, map, reverse}
pub use native.Mathlib.Omega.{arith}
unfoldable pub use native.Mathlib.Decide.{dec_lt, ℕ_discrete}
