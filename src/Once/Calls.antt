-- ===== src/Once/Calls.antt =====
-- ccthread_once, the whole call while no other thread moves. `none` for a pointer is NULL, and
-- `none` for the result says that the fuel ran out. `func` acts on a state of its own.
use ccthread.Prelude.{ℕ, zero, suc, Option, none, some, ltb, ◌==◌, if◌then◌else◌}
use ccthread.Types.{Code, ok, failed}
use ccthread.Atomic.{Toolchain, exchange_acquire, store_release, load_acquire}

module _ {S : Type 0} (tc : Toolchain) (func : S → S) where
  -- The `while` loop: the block and the state that `func` works on.
  unfoldable pub loop : ℕ → ℕ → S → Option (ℕ × S)
  unfolding exchange_acquire
  loop zero once s = none
  loop (suc fuel) once s =
      let (prev, once') = exchange_acquire tc 1 once in
      let waited = loop fuel once' s in
      let initialised = loop fuel (store_release tc 2 once') (func s) in
      if ltb (load_acquire tc once) 2
      then (if prev == 2
          then some (store_release tc 2 once', s)
          else if prev == 0
          then initialised
          else waited)
      else some (once, s)

-- The NULL guards, then the loop.
unfoldable pub ccthread_once :
    {S : Type 0} → ℕ → Toolchain → Option ℕ → Option (S → S) → S → Option (Code × Option ℕ × S)
unfolding loop
ccthread_once fuel tc none func s = some (failed, none, s)
ccthread_once fuel tc (some once) none s = some (failed, some once, s)
ccthread_once fuel tc (some once) (some func) s = elim (loop tc func fuel once s) [
  | none ↦ none
  | some (once', s') ↦ some (ok, some once', s')
]
