-- ===== src/Examples/Counter/Trylock.antt =====
-- The demonstration of ccspinlock_trylock at the end of examples/ccspinlock_basic.c, on a thread with
-- id `t`. `none` is an overflow of `recursion`.
use ccthread.Prelude.{ℕ, ◌≡◌, ◌≢◌, Bool, true, Option, none, some, List, [], ◌∷◌, arith}
use ccthread.Types.{Status, success, plain}
use ccthread.Atomic.{Toolchain, unknown}
use ccthread.Spinlock.Threads.{Spin}
use ccthread.Spinlock.Calls.{ccspinlock_create, ccspinlock_trylock, ccspinlock_unlock, trylock}

-- The second `if`: `ccspinlock_unlock` if the last attempt succeeded.
abbrev unlock_after : Status → Option Spin → Option Spin
unlock_after success spin = (ccspinlock_unlock spin).1
unlock_after other spin = spin

-- The results of the three calls, and the lock before it is destroyed.
unfoldable pub trylock_demo : Bool → Toolchain → ℕ → Option (List Status × Option Spin)
trylock_demo allocated tc t = elim (ccspinlock_trylock tc t (ccspinlock_create allocated plain)) [
  | none ↦ none
  | some (first, spin) ↦ elim (ccspinlock_trylock tc t spin) [
    | none ↦ none
    | some (second, spin') ↦ elim (ccspinlock_trylock tc t (ccspinlock_unlock spin').1) [
      | none ↦ none
      | some (third, spin'') ↦ some (first ∷ second ∷ third ∷ [], unlock_after third spin'')
    ]
  ]
]

-- The second attempt, on a plain lock that the thread has taken, succeeds like the others, and the lock
-- is destroyed while the thread owns it.
pub trylock_demo-reenters :
    (tc : Toolchain) (t : ℕ)
    → tc ≢ unknown
    → t ≢ 0
    → trylock_demo true tc t
      ≡ some (
        success ∷ success ∷ success ∷ [],
        some (record { flag = 1; owner_tid = t; recursion = 1 }),
      )
unfolding trylock_demo ccspinlock_create ccspinlock_trylock trylock ccspinlock_unlock
trylock_demo-reenters tc t k h = ground arith
