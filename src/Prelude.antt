-- ===== src/Prelude.antt =====
-- Names that every module shares: those of the libraries, passed on, the Boolean tests on the
-- native numbers, and interleaved threads.
mod Tests
mod Interleave
mod Lists
mod Sums
mod Solo
pub use Tests.*
pub use Lists.*
pub use Sums.{
  sum, sum-zero, sum-change, le-sum, two-le-sum, sum-positive, sum-constant, sum-zero_below,
}
pub use Interleave.{System, turn, run-keeps, run-bounded, sum-update}
unfoldable pub use Interleave.{run}
pub use Solo.{run-++, Alone, run-solo}
unfoldable pub use Solo.{solo, local}
pub use Prim.Native.Nat.{ℕ, zero, suc, ◌+◌, ◌-◌, ◌*◌, ◌/◌, ◌%◌, ◌^◌, ◌≤◌, ◌<◌, min}
pub use mathlib.Core.Path.{◌≡◌, refl, sym, ap, ◌∙◌}
pub use mathlib.Core.Logic.{◌≢◌, ◌↔◌, ◌⊎◌, inl, inr}
pub use mathlib.Core.Bool.{Bool, true, false, not, ◌&&◌, ◌||◌}
pub use mathlib.Core.Option.{Option, none, some}
pub use mathlib.Core.List.{List, [], ◌∷◌, ◌++◌, map}
pub use native.Mathlib.Omega.{arith}
unfoldable pub use native.Mathlib.Decide.{dec_lt, ℕ_discrete}
