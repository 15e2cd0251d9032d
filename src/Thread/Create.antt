-- ===== src/Thread/Create.antt =====
-- ccthread_create, ccthread_join, ccthread_detach, ccthread_gettid and ccthread_sleep of ccthread.c.
-- Structs and functions are named by addresses, 0 for NULL.
use ccthread.Prelude.{ℕ, ◌^◌, ◌%◌, ◌||◌, Bool, not, Option, none, some, ◌==◌, if◌then◌else◌}
use ccthread.Types.{Platform, is_windows, apple, netbsd, solaris, posix, Code, ok, failed}
use ccthread.Deadline.{of_ms}
use ccthread.Sem.Native.{infinite}
use ccthread.External.{
  Prog, pure, ◌>>=◌, ◌>>◌, call, load, store, alloc, free, handle, func, arg, result, detached,
  joined, finished, cleanup_claimed, tid, is_self, create_thread, pthread_create, pthread_join,
  pthread_detach, gettid, pthread_self, macos_threadid_rc, macos_threadid, nanosleep, sleep_ms,
  wait_for_single_object, close_handle,
}

-- `_ccthread_gettid`: the thread id, cut to 32 bits.
unfoldable pub os_gettid : Platform → Prog ℕ
os_gettid apple = do
  rc ← call macos_threadid_rc
  if rc == 0 then (do t ← call macos_threadid; pure (t % 2 ^ 32)) else pure 0
os_gettid netbsd = do t ← call pthread_self; pure (t % 2 ^ 32)
os_gettid solaris = do t ← call pthread_self; pure (t % 2 ^ 32)
os_gettid posix = do t ← call pthread_self; pure (t % 2 ^ 32)
os_gettid _ = do t ← call gettid; pure (t % 2 ^ 32)

unfoldable pub ccthread_gettid : Platform → ℕ → Prog ℕ
unfolding os_gettid
ccthread_gettid platform p = if p == 0 then os_gettid platform else load p tid

-- The stores of ccthread_create before it starts the thread.
unfoldable pub prepare : ℕ → ℕ → ℕ → Prog (Unit {0})
prepare p f a = do
  store p func f
  store p arg a
  store p detached 0
  store p joined 0
  store p finished 0
  store p is_self 0
  store p result 0

-- Windows stores the handle that `CreateThread` returns; `pthread_create` stores it itself.
start : Platform → ℕ → Prog ℕ
start platform p =
    if is_windows platform
    then (do
      h ← call (create_thread p)
      store p handle h
      if h == 0 then (do call (free p); pure 0) else pure p)
    else (do rc ← call (pthread_create p); if rc == 0 then pure p else (do call (free p); pure 0))

-- The address of the new handle, or 0.
unfoldable pub ccthread_create : Platform → ℕ → ℕ → Prog ℕ
unfolding prepare start
ccthread_create platform f a =
    if f == 0
    then pure 0
    else (do p ← alloc; if p == 0 then pure 0 else (do prepare p f a; start platform p))

-- The guard of ccthread_join and ccthread_detach: 0 if the handle can be consumed.
guard : ℕ → Prog ℕ
guard p = do
  d ← load p detached
  j ← load p joined
  s ← load p is_self
  pure (if not (d == 0) || not (j == 0) || not (s == 0) then 1 else 0)

abbrev fetch : Bool → ℕ → Prog (Option ℕ)
fetch wanted p = if wanted then (do r ← load p result; pure (some r)) else pure none

mark_joined : ℕ → Option ℕ → Prog (Code × Option ℕ)
mark_joined p r = do store p joined 1; call (free p); pure (ok, r)

join_windows : ℕ → Bool → Prog (Code × Option ℕ)
join_windows p wanted = do
  h ← load p handle
  rc ← call (wait_for_single_object h infinite)
  if rc == 0
      then (do
        r ← fetch wanted p
        again ← load p handle
        call (close_handle again)
        store p handle 0
        mark_joined p r)
      else pure (failed, none)

join_posix : ℕ → Bool → Prog (Code × Option ℕ)
join_posix p wanted = do
  h ← load p handle
  rc ← call (pthread_join p)
  if rc == 0 then (do r ← fetch wanted p; mark_joined p r) else pure (failed, none)

-- `wanted` says that `result` is not NULL.
unfoldable pub ccthread_join : Platform → ℕ → Bool → Prog (Code × Option ℕ)
unfolding guard mark_joined join_windows join_posix
ccthread_join platform p wanted = if p == 0 then pure (failed, none) else (do
  refused ← guard p
  if refused == 0
      then (if is_windows platform then join_windows p wanted else join_posix p wanted)
      else pure (failed, none))

-- `if (ccatomic_load_acquire(&thread->finished))`, and the claim of the clean-up.
reclaim : ℕ → Prog ℕ
reclaim p = do
  f ← load p finished
  if f == 0 then pure 0 else (do
    claimed ← load p cleanup_claimed
    store p cleanup_claimed 1
    if claimed == 0 then call (free p) else pure 0)

mark_detached : ℕ → Prog Code
mark_detached p = do store p detached 1; reclaim p; pure ok

unfoldable pub ccthread_detach : Platform → ℕ → Prog Code
unfolding guard reclaim mark_detached
ccthread_detach platform p = if p == 0 then pure failed else (do
  refused ← guard p
  if refused == 0
      then (if is_windows platform
          then (do h ← load p handle; call (close_handle h); store p handle 0; mark_detached p)
          else (do rc ← call (pthread_detach p); if rc == 0 then mark_detached p else pure failed))
      else pure failed)

-- The answer of `nanosleep` is not looked at.
unfoldable pub ccthread_sleep : Platform → ℕ → Prog ℕ
ccthread_sleep platform ms =
    if is_windows platform then call (sleep_ms ms) else call (nanosleep (of_ms ms))
