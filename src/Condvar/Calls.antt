-- ===== src/Condvar/Calls.antt =====
-- The functions of cccondvar.c. Objects are named by their addresses, 0 for NULL.
use ccthread.Prelude.{ℕ, ◌||◌, ◌==◌, if◌then◌else◌}
use ccthread.Types.{Platform, is_windows, is_apple, Status, success, error, timeout}
use ccthread.External.{
  Timespec, Prog, pure, ◌>>=◌, ◌>>◌, call, alloc, free, condattr_init, condattr_setclock,
  condattr_destroy, cond_init, cond_destroy, cond_wait, cond_timedwait, cond_timedwait_relative,
  cond_signal, cond_broadcast, cv_init, cv_sleep_cs, cv_sleep_srw, cv_wake, cv_wake_all,
  get_last_error, clock_gettime_sec, clock_gettime_nsec,
}
use ccthread.Clock.{own_clock}
use ccthread.Deadline.{deadline, of_ms}
use ccthread.Sem.Posix.{etimedout}
use ccthread.Sem.Native.{infinite, wait_timeout}
use ccthread.Mutex.Calls.{ccmutex_is_recursive}

-- On macOS the condition attribute keeps its default clock.
unfoldable pub create_posix : Platform → ℕ → Prog ℕ
create_posix platform p = do
  call condattr_init
  if is_apple platform then pure 0 else (do clock ← own_clock; call (condattr_setclock clock))
  rc ← call (cond_init p)
  call condattr_destroy
  if rc == 0 then pure p else (do call (free p); pure 0)

-- The address of the new condition variable, or 0.
unfoldable pub cccondvar_create : Platform → Prog ℕ
unfolding create_posix
cccondvar_create platform = do
  p ← alloc
  if p == 0
      then pure 0
      else (if is_windows platform then (do call (cv_init p); pure p) else create_posix platform p)

-- `SleepConditionVariableCS` or `SleepConditionVariableSRW`, by the type of the mutex.
unfoldable pub sleep_windows : ℕ → ℕ → ℕ → Prog ℕ
unfolding ccmutex_is_recursive
sleep_windows cv mtx ms = do
  r ← ccmutex_is_recursive mtx
  if r == 0 then call (cv_sleep_srw cv mtx ms) else call (cv_sleep_cs cv mtx ms)

unfoldable pub cccondvar_wait : Platform → ℕ → ℕ → Prog Status
unfolding sleep_windows
cccondvar_wait platform cv mtx =
    if (cv == 0) || (mtx == 0)
    then pure error
    else if is_windows platform
    then (do ok ← sleep_windows cv mtx infinite; pure (if ok == 0 then error else success))
    else (do rc ← call (cond_wait cv mtx); pure (if rc == 0 then success else error))

timedwait_windows : ℕ → ℕ → ℕ → Prog Status
timedwait_windows cv mtx timeout_ms = do
  ok ← sleep_windows cv mtx timeout_ms
  if ok == 0
      then (do e ← call get_last_error; pure (if e == wait_timeout then timeout else error))
      else pure success

-- The wait itself: relative on macOS, until a deadline of the clock elsewhere.
timedwait_posix : Platform → ℕ → ℕ → ℕ → Prog ℕ
timedwait_posix platform cv mtx timeout_ms =
    if is_apple platform then call (cond_timedwait_relative cv mtx (of_ms timeout_ms)) else (do
      clock ← own_clock
      sec ← call (clock_gettime_sec clock)
      nsec ← call (clock_gettime_nsec clock)
      let now : Timespec = record { tv_sec = sec; tv_nsec = nsec }
      call (cond_timedwait cv mtx (deadline now timeout_ms)))

unfoldable pub cccondvar_timedwait : Platform → ℕ → ℕ → ℕ → Prog Status
unfolding sleep_windows timedwait_windows timedwait_posix
cccondvar_timedwait platform cv mtx timeout_ms =
    if (cv == 0) || (mtx == 0)
    then pure error
    else if is_windows platform
    then timedwait_windows cv mtx timeout_ms
    else (do
      rc ← timedwait_posix platform cv mtx timeout_ms
      pure (if rc == 0 then success else if rc == etimedout then timeout else error))

unfoldable pub cccondvar_signal : Platform → ℕ → Prog Status
cccondvar_signal platform cv =
    if cv == 0
    then pure error
    else if is_windows platform
    then (do call (cv_wake cv); pure success)
    else (do rc ← call (cond_signal cv); pure (if rc == 0 then success else error))

unfoldable pub cccondvar_broadcast : Platform → ℕ → Prog Status
cccondvar_broadcast platform cv =
    if cv == 0
    then pure error
    else if is_windows platform
    then (do call (cv_wake_all cv); pure success)
    else (do rc ← call (cond_broadcast cv); pure (if rc == 0 then success else error))

unfoldable pub cccondvar_destroy : Platform → ℕ → Prog ℕ
cccondvar_destroy platform cv =
    if cv == 0
    then pure 0
    else (do if is_windows platform then pure 0 else call (cond_destroy cv); call (free cv))
