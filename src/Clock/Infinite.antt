-- ===== src/Clock/Infinite.antt =====
-- The largest timeout on Windows, where it is the value of INFINITE.
use ccthread.Prelude.{ℕ, ◌-◌, ◌^◌, ◌≡◌, ◌⊎◌, true, arith}
use ccthread.Types.{Platform, is_windows}
use ccthread.External.{Env, World, call, get_last_error}
use ccthread.Sem.Native.{ccsem_wait, ccsem_timedwait}
use ccthread.Condvar.Calls.{cccondvar_wait, cccondvar_timedwait}

-- On Windows a timed wait with the largest timeout of an unsigned int makes the calls of a wait without
-- a timeout, on a semaphore and up to the reading of the error on a condition variable: after
-- 4294967295 milliseconds it does not end.
pub timedwait_infinite :
    (platform : Platform) (fuel p cv mtx : ℕ) (env : Env) (w : World)
    → is_windows platform ≡ true
    → ((ccsem_timedwait fuel platform p (2 ^ 32 - 1) env w).1
        ≡ (ccsem_wait fuel platform p env w).1)
      × (let waited = (cccondvar_wait platform cv mtx env w).1 in
          let timed = (cccondvar_timedwait platform cv mtx (2 ^ 32 - 1) env w).1 in
          (timed ≡ waited) ⊎ (timed ≡ (call get_last_error env waited).1))
unfolding ccsem_wait ccsem_timedwait cccondvar_wait cccondvar_timedwait
timedwait_infinite platform fuel p cv mtx env w windows = (ground arith, ground arith)
