-- ===== src/Sem/Posix.antt =====
-- The operations of ccsem.c on a pthread mutex and a condition variable. `sem->mutex` and
-- `sem->cond` are named by the address of the semaphore. A loop that runs out of fuel gives `none`.
use ccthread.Prelude.{
  ℕ, zero, suc, ◌+◌, ◌-◌, ◌%◌, ◌^◌, Option, none, some, ltb, ◌==◌, if◌then◌else◌,
}
use ccthread.Types.{Status, success, error, timeout}
use ccthread.External.{
  Timespec, Prog, pure, ◌>>=◌, ◌>>◌, call, load, store, count, mutex_lock, mutex_unlock, cond_wait,
  cond_timedwait, cond_signal, clock_gettime_sec, clock_gettime_nsec,
}
use ccthread.Clock.{own_clock}
use ccthread.Deadline.{deadline}

-- The value of `ETIMEDOUT` on Linux.
abbrev pub etimedout : ℕ
etimedout = 110

-- `sem->count--; pthread_mutex_unlock(&sem->mutex); return CCMUTEX_SUCCESS`
unfoldable pub take_one : ℕ → Prog Status
take_one p = do n ← load p count; store p count (n - 1); call (mutex_unlock p); pure success

-- `pthread_mutex_unlock(&sem->mutex); return s`
unfoldable pub give_up : Status → ℕ → Prog Status
give_up s p = do call (mutex_unlock p); pure s

abbrev finish : Prog Status → Prog (Option Status)
finish m = do s ← m; pure (some s)

-- `while (sem->count == 0)` with `pthread_cond_wait`, and what follows the loop.
unfoldable pub wait_loop : ℕ → ℕ → Prog (Option Status)
unfolding take_one give_up
wait_loop zero p = pure none
wait_loop (suc fuel) p = do
  n ← load p count
  if n == 0
      then (do
        rc ← call (cond_wait p p)
        if rc == 0 then wait_loop fuel p else finish (give_up error p))
      else finish (take_one p)

unfoldable pub wait_posix : ℕ → ℕ → Prog (Option Status)
unfolding wait_loop
wait_posix fuel p = do
  rc ← call (mutex_lock p)
  if rc == 0 then wait_loop fuel p else pure (some error)

unfoldable pub trywait_posix : ℕ → Prog Status
unfolding take_one give_up
trywait_posix p = do
  rc ← call (mutex_lock p)
  if rc == 0
      then (do n ← load p count; if ltb 0 n then take_one p else give_up timeout p)
      else pure error

-- `while (sem->count == 0)` with `pthread_cond_timedwait` until `ts`.
unfoldable pub timedwait_loop : ℕ → ℕ → Timespec → Prog (Option Status)
unfolding take_one give_up
timedwait_loop zero p ts = pure none
timedwait_loop (suc fuel) p ts = do
  n ← load p count
  if n == 0
      then (do
        rc ← call (cond_timedwait p p ts)
        if rc == etimedout
            then finish (give_up timeout p)
            else if rc == 0
            then timedwait_loop fuel p ts
            else finish (give_up error p))
      else finish (take_one p)

unfoldable pub timedwait_posix : ℕ → ℕ → ℕ → Prog (Option Status)
unfolding timedwait_loop deadline
timedwait_posix fuel p timeout_ms = do
  rc ← call (mutex_lock p)
  if rc == 0
      then (do
        n ← load p count
        if ltb 0 n then finish (take_one p) else (do
          clock ← own_clock
          sec ← call (clock_gettime_sec clock)
          nsec ← call (clock_gettime_nsec clock)
          timedwait_loop fuel p (deadline (record { tv_sec = sec; tv_nsec = nsec }) timeout_ms)))
      else pure (some error)

-- `sem->count` is an unsigned int: its increment wraps.
unfoldable pub post_posix : ℕ → Prog Status
post_posix p = do
  rc ← call (mutex_lock p)
  if rc == 0
      then (do
        n ← load p count
        store p count ((n + 1) % 2 ^ 32)
        rc' ← call (cond_signal p)
        call (mutex_unlock p)
        pure (if rc' == 0 then success else error))
      else pure error
