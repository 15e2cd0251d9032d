-- ===== src/Rwlock/Calls.antt =====
-- The functions of ccrwlock.c. A lock is named by its address, 0 for NULL.
use ccthread.Prelude.{ℕ, ◌==◌, if◌then◌else◌}
use ccthread.Types.{Platform, is_windows, Status, success, error}
use ccthread.External.{
  Prog, pure, ◌>>=◌, ◌>>◌, call, load, store, alloc, free, writer_tid, gettid, srw_init,
  srw_acquire_shared, srw_try_shared, srw_release_shared, srw_acquire_exclusive, srw_try_exclusive,
  srw_release_exclusive, rwlock_init, rwlock_destroy, rwlock_rdlock, rwlock_tryrdlock,
  rwlock_wrlock, rwlock_trywrlock, rwlock_unlock,
}

abbrev zero_is_success : ℕ → Status
zero_is_success rc = if rc == 0 then success else error

-- The address of the new lock, or 0.
unfoldable pub ccrwlock_create : Platform → Prog ℕ
ccrwlock_create platform = do
  p ← alloc
  if p == 0
      then pure 0
      else (if is_windows platform then (do call (srw_init p); pure p) else (do
        rc ← call (rwlock_init p)
        if rc == 0 then pure p else (do call (free p); pure 0)))

unfoldable pub ccrwlock_rdlock : Platform → ℕ → Prog Status
ccrwlock_rdlock platform p =
    if p == 0
    then pure error
    else if is_windows platform
    then (do call (srw_acquire_shared p); pure success)
    else (do rc ← call (rwlock_rdlock p); pure (zero_is_success rc))

unfoldable pub ccrwlock_tryrdlock : Platform → ℕ → Prog Status
ccrwlock_tryrdlock platform p =
    if p == 0
    then pure error
    else if is_windows platform
    then (do a ← call (srw_try_shared p); pure (if a == 0 then error else success))
    else (do rc ← call (rwlock_tryrdlock p); pure (zero_is_success rc))

-- `rw->writer_tid = ccthread_gettid(NULL)`, and success. A Windows thread id has 32 bits.
own : ℕ → Prog Status
own p = do t ← call gettid; store p writer_tid t; pure success

unfoldable pub ccrwlock_wrlock : Platform → ℕ → Prog Status
unfolding own
ccrwlock_wrlock platform p =
    if p == 0
    then pure error
    else if is_windows platform
    then (do call (srw_acquire_exclusive p); own p)
    else (do rc ← call (rwlock_wrlock p); pure (zero_is_success rc))

unfoldable pub ccrwlock_trywrlock : Platform → ℕ → Prog Status
unfolding own
ccrwlock_trywrlock platform p =
    if p == 0
    then pure error
    else if is_windows platform
    then (do a ← call (srw_try_exclusive p); if a == 0 then pure error else own p)
    else (do rc ← call (rwlock_trywrlock p); pure (zero_is_success rc))

-- `ccthread_gettid` is called only if `writer_tid` is not 0.
is_writer : ℕ → Prog ℕ
is_writer p = do
  owner ← load p writer_tid
  if owner == 0
      then pure 0
      else (do again ← load p writer_tid; t ← call gettid; pure (if again == t then 1 else 0))

unlock_windows : ℕ → Prog ℕ
unlock_windows p = do
  mine ← is_writer p
  if mine == 0
      then call (srw_release_shared p)
      else (do store p writer_tid 0; call (srw_release_exclusive p))

unfoldable pub ccrwlock_unlock : Platform → ℕ → Prog Status
unfolding unlock_windows is_writer
ccrwlock_unlock platform p =
    if p == 0
    then pure error
    else if is_windows platform
    then (do unlock_windows p; pure success)
    else (do rc ← call (rwlock_unlock p); pure (zero_is_success rc))

unfoldable pub ccrwlock_destroy : Platform → ℕ → Prog ℕ
ccrwlock_destroy platform p =
    if p == 0
    then pure 0
    else (do if is_windows platform then pure 0 else call (rwlock_destroy p); call (free p))
