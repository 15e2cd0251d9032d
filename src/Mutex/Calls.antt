-- ===== src/Mutex/Calls.antt =====
-- The functions of ccmutex.c. A mutex is named by its address, 0 for NULL.
use ccthread.Prelude.{ℕ, zero, suc, Option, none, some, ◌==◌, if◌then◌else◌}
use ccthread.Types.{
  Platform, is_windows, RecursionType, plain, recursive, is_recursive, Status, success, error,
  is_success,
}
use ccthread.External.{
  Prog, pure, ◌>>=◌, ◌>>◌, call, load, store, alloc, free, mutexattr_init,
  mutexattr_settype_recursive, mutexattr_destroy, mutex_init, mutex_destroy, mutex_trylock,
  mutex_unlock, critical_init, critical_delete, critical_try_enter, critical_leave,
  srw_try_exclusive, srw_release_exclusive, sched_yield, switch_to_thread,
}
use ccthread.External

-- `type != CCRECURSION_PLAIN` as an int
abbrev recursion_flag : RecursionType → ℕ
recursion_flag plain = 0
recursion_flag recursive = 1

init_posix : RecursionType → ℕ → Prog ℕ
init_posix plain p = call (mutex_init plain p)
init_posix recursive p = do
  call mutexattr_init
  call mutexattr_settype_recursive
  rc ← call (mutex_init recursive p)
  call mutexattr_destroy
  pure rc

-- The address of the new mutex, or 0.
unfoldable pub ccmutex_create : Platform → RecursionType → Prog ℕ
unfolding init_posix
ccmutex_create platform type = do
  p ← alloc
  if p == 0 then pure 0 else (do
    store p External.recursive (recursion_flag type)
    if is_windows platform
        then (do if is_recursive type then call (critical_init p) else pure 0; pure p)
        else (do rc ← init_posix type p; if rc == 0 then pure p else (do call (free p); pure 0)))

abbrev nonzero_is_success : ℕ → Status
nonzero_is_success a = if a == 0 then error else success

trylock_windows : ℕ → Prog Status
trylock_windows p = do
  r ← load p External.recursive
  if r == 0
      then (do a ← call (srw_try_exclusive p); pure (nonzero_is_success a))
      else (do a ← call (critical_try_enter p); pure (nonzero_is_success a))

trylock_posix : ℕ → Prog Status
trylock_posix p = do rc ← call (mutex_trylock p); pure (if rc == 0 then success else error)

unfoldable pub ccmutex_trylock : Platform → ℕ → Prog Status
unfolding trylock_windows trylock_posix
ccmutex_trylock platform p =
    if p == 0
    then pure error
    else if is_windows platform
    then trylock_windows p
    else trylock_posix p

-- ccthread_yield of ccthread.c
unfoldable pub ccthread_yield : Platform → Prog ℕ
ccthread_yield platform = if is_windows platform then call switch_to_thread else call sched_yield

-- `while (ccmutex_trylock(mtx) != CCMUTEX_SUCCESS)`; `none` says that the fuel ran out.
unfoldable pub lock_loop : ℕ → Platform → ℕ → Prog (Option Status)
lock_loop zero platform p = pure none
lock_loop (suc fuel) platform p = do
  s ← ccmutex_trylock platform p
  if is_success s
      then pure (some success)
      else (do ccthread_yield platform; lock_loop fuel platform p)

unfoldable pub ccmutex_lock : ℕ → Platform → ℕ → Prog (Option Status)
ccmutex_lock fuel platform p = if p == 0 then pure (some error) else lock_loop fuel platform p

unlock_windows : ℕ → Prog ℕ
unlock_windows p = do
  r ← load p External.recursive
  if r == 0 then call (srw_release_exclusive p) else call (critical_leave p)

unfoldable pub ccmutex_unlock : Platform → ℕ → Prog Status
unfolding unlock_windows
ccmutex_unlock platform p =
    if p == 0
    then pure error
    else (do if is_windows platform then unlock_windows p else call (mutex_unlock p); pure success)

destroy_windows : ℕ → Prog ℕ
destroy_windows p = do
  r ← load p External.recursive
  if r == 0 then pure 0 else call (critical_delete p)

unfoldable pub ccmutex_destroy : Platform → ℕ → Prog ℕ
unfolding destroy_windows
ccmutex_destroy platform p = if p == 0 then pure 0 else (do
  if is_windows platform then destroy_windows p else call (mutex_destroy p)
  call (free p))

unfoldable pub ccmutex_is_recursive : ℕ → Prog ℕ
ccmutex_is_recursive p = if p == 0 then pure 0 else load p External.recursive

-- What `ccmutex_native_handle` points to: the object inside the struct at an address.
pub data NativeHandle : Type 0 where
  null : NativeHandle
  srwlock critical_section pthread_mutex : ℕ → NativeHandle

native_windows : ℕ → Prog NativeHandle
native_windows p = do
  r ← load p External.recursive
  pure (if r == 0 then srwlock p else critical_section p)

unfoldable pub ccmutex_native_handle : Platform → ℕ → Prog NativeHandle
unfolding native_windows
ccmutex_native_handle platform p =
    if p == 0
    then pure null
    else if is_windows platform
    then native_windows p
    else pure (pthread_mutex p)
