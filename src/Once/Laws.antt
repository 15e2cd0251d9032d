-- ===== src/Once/Laws.antt =====
-- What the whole call of ccthread_once does.
use ccthread.Prelude.{ℕ, zero, suc, ◌<◌, ◌≡◌, refl, ◌≢◌, ◌⊎◌, inl, inr, Option, none, some, arith}
use ccthread.Types.{ok, failed}
use ccthread.Atomic.{Toolchain, unknown}
use ccthread.Once.Calls.{loop, ccthread_once}

-- The first call on a fresh block runs `func` once and marks the block, and every later call returns
-- at once and runs nothing: two rounds of the loop are enough fuel, whatever the working compiler.
pub once-once :
    {S : Type 0} (tc : Toolchain) (func again : S → S) (fuel : ℕ) (s : S)
    → tc ≢ unknown
    → (ccthread_once (suc (suc fuel)) tc (some 0) (some func) s ≡ some (ok, some 2, func s))
      × (ccthread_once (suc fuel) tc (some 2) (some again) (func s) ≡ some (ok, some 2, func s))
unfolding ccthread_once
once-once tc func again fuel s k = (ground arith, ground arith)

-- A NULL block or a NULL function is refused, and nothing runs.
pub once_guards :
    {S : Type 0} (tc : Toolchain) (fuel : ℕ) (block : Option ℕ) (func : Option (S → S)) (s : S)
    → (block ≡ none) ⊎ (func ≡ none)
    → ccthread_once fuel tc block func s ≡ some (failed, block, s)
unfolding ccthread_once
once_guards tc fuel none func s h = refl
once_guards tc fuel (some b) none s h = refl
once_guards tc fuel (some b) (some f) s (inl h) = cc
once_guards tc fuel (some b) (some f) s (inr h) = cc

loop-in_progress :
    {S : Type 0} (tc : Toolchain) (func : S → S) (fuel : ℕ) (s : S) → loop tc func fuel 1 s ≡ none
unfolding loop
loop-in_progress tc func zero s = refl
loop-in_progress tc func (suc fuel) s = ground (arith, loop-in_progress tc func fuel s)

-- A call from within `func`, on the same block, uses up any fuel: the block says "in progress" and
-- no other thread changes it.
pub once_reentered :
    {S : Type 0} (tc : Toolchain) (func : S → S) (fuel : ℕ) (s : S)
    → ccthread_once fuel tc (some 1) (some func) s ≡ none
unfolding ccthread_once
once_reentered tc func fuel s = ground (arith, loop-in_progress tc func fuel s)

loop-unknown :
    {S : Type 0} (func : S → S) (fuel once : ℕ) (s : S)
    → once < 2
    → loop unknown func fuel once s ≡ none
unfolding loop
loop-unknown func zero once s h = refl
loop-unknown func (suc fuel) once s h = ground (arith, loop-unknown func fuel 1 s)

-- With the header's last branch the call on a fresh block never returns: the expression that should
-- be the old value is the value stored, so no thread takes itself for the first.
pub once_unknown :
    {S : Type 0} (func : S → S) (fuel : ℕ) (s : S)
    → ccthread_once fuel unknown (some 0) (some func) s ≡ none
unfolding ccthread_once
once_unknown func fuel s = ground (arith, loop-unknown func fuel 0 s)
