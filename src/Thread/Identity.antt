-- ===== src/Thread/Identity.antt =====
-- ccthread_self and ccthread_equal of ccthread.c.
use ccthread.Prelude.{ℕ, Bool, ◌||◌, ◌==◌, if◌then◌else◌}
use ccthread.Types.{Platform, is_windows}
use ccthread.External.{
  Prog, pure, ◌>>=◌, ◌>>◌, call, load, store, alloc, free, handle, detached, joined, finished, tid,
  is_self, get_current_thread, get_current_process, duplicate_handle, duplicated_handle,
  pthread_self, pthread_equal,
}
use ccthread.Thread.Create.{ccthread_gettid}

unfoldable pub mark_self : ℕ → Prog (Unit {0})
mark_self p = do store p is_self 1; store p detached 1; store p joined 1; store p finished 1

-- The results are the handle and the new value of the thread-local `ccthread_self_ptr`.
unfoldable pub cached : Platform → ℕ → Prog (ℕ × ℕ)
cached platform p = do t ← ccthread_gettid platform 0; store p tid t; pure (p, p)

-- A handle that `DuplicateHandle` made is its second result.
unfoldable pub fill_windows : Platform → ℕ → Prog (ℕ × ℕ)
unfolding cached
fill_windows platform p = do
  call get_current_thread
  call get_current_process
  ok ← call duplicate_handle
  if ok == 0
      then (do call (free p); pure (0, 0))
      else (do h ← call duplicated_handle; store p handle h; cached platform p)

unfoldable pub fill_posix : Platform → ℕ → Prog (ℕ × ℕ)
unfolding cached
fill_posix platform p = do h ← call pthread_self; store p handle h; cached platform p

-- `has_tls` says that the compiler has thread-local variables; `self_ptr` is the one of this thread.
unfoldable pub ccthread_self : Platform → Bool → ℕ → Prog (ℕ × ℕ)
unfolding mark_self fill_windows fill_posix ccthread_gettid
ccthread_self platform has_tls self_ptr =
    if has_tls
    then (if self_ptr == 0
        then (do
          p ← alloc
          if p == 0 then pure (0, 0) else (do
            mark_self p
            if is_windows platform then fill_windows platform p else fill_posix platform p))
        else pure (self_ptr, self_ptr))
    else pure (0, self_ptr)

unfoldable pub ccthread_equal : Platform → ℕ → ℕ → Prog ℕ
ccthread_equal platform a b =
    if (a == 0) || (b == 0)
    then pure (if a == b then 1 else 0)
    else if is_windows platform
    then (do t ← load a tid; u ← load b tid; pure (if t == u then 1 else 0))
    else (do s ← load a handle; t ← load b handle; call (pthread_equal s t))
