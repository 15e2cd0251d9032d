-- ===== src/Spinlock/Calls.antt =====
-- ccspinlock.c, each call as one function of the struct: what it does while no other thread moves.
-- `none` for the pointer is NULL; `none` for the whole result is a signed overflow of `recursion`.
use ccthread.Prelude.{
  ℕ, zero, suc, ◌+◌, ◌-◌, ◌^◌, Bool, not, ◌&&◌, Option, none, some, ltb, ◌==◌, if◌then◌else◌,
}
use ccthread.Types.{Status, success, error, RecursionType}
use ccthread.Atomic.{Toolchain, exchange_acquire}
use ccthread.External.{Prog, call, free}
use ccthread.Spinlock.Threads.{Spin, zeroed}

-- `allocated` says whether `calloc` succeeds.
unfoldable pub ccspinlock_create : Bool → RecursionType → Option Spin
ccspinlock_create allocated type = if allocated then some zeroed else none

-- The exchange of line 60, with the test of its value.
take_flag : Toolchain → ℕ → Spin → Status × Spin
unfolding exchange_acquire
take_flag tc t m =
    let (old, flag) = exchange_acquire tc 1 m.flag in
    if old == 0
    then (success, record { flag = flag; owner_tid = t; recursion = 1 })
    else (error, record m { flag = flag })

unfoldable pub trylock : Toolchain → ℕ → Spin → Option (Status × Spin)
unfolding take_flag
trylock tc t m =
    if not (m.owner_tid == 0) && (m.owner_tid == t)
    then (if ltb (m.recursion + 1) (2 ^ 31)
        then some (success, record m { recursion = m.recursion + 1 })
        else none)
    else some (take_flag tc t m)

unfoldable pub ccspinlock_trylock : Toolchain → ℕ → Option Spin → Option (Status × Option Spin)
unfolding trylock
ccspinlock_trylock tc t none = some (error, none)
ccspinlock_trylock tc t (some m) = elim (trylock tc t m) [
  | none ↦ none
  | some (s, m') ↦ some (s, some m')
]

-- The loop of `ccspinlock_lock`, and how often it pauses. The outer `none` is an overflow or that
-- the fuel ran out.
unfoldable pub spin_until : ℕ → Toolchain → ℕ → Spin → Option (ℕ × Spin)
spin_until zero tc t m = none
spin_until (suc fuel) tc t m = elim (trylock tc t m) [
  | none ↦ none
  | some (success, m') ↦ some (0, m')
  | some (other, m') ↦ elim (spin_until fuel tc t m') [
    | none ↦ none
    | some (n, m'') ↦ some (suc n, m'')
  ]
]

unfoldable pub ccspinlock_lock : ℕ → Toolchain → ℕ → Option Spin → Option (Status × Option Spin)
unfolding spin_until
ccspinlock_lock fuel tc t none = some (error, none)
ccspinlock_lock fuel tc t (some m) = elim (spin_until fuel tc t m) [
  | none ↦ none
  | some (n, m') ↦ some (success, some m')
]

unfoldable pub unlock : Spin → Spin
unlock m =
    if ltb 1 m.recursion
    then record m { recursion = m.recursion - 1 }
    else record { flag = 0; owner_tid = 0; recursion = 0 }

unfoldable pub ccspinlock_unlock : Option Spin → Status × Option Spin
unfolding unlock
ccspinlock_unlock none = (error, none)
ccspinlock_unlock (some m) = (success, some (unlock m))

-- `free(spin)`: the struct by its address, 0 for NULL.
pub ccspinlock_destroy : ℕ → Prog ℕ
ccspinlock_destroy p = call (free p)
