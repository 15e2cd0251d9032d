-- ===== src/Thread/Finish.antt =====
-- ccthread_wrapper and ccthread_exit of ccthread.c: what a new thread does around its function.
use ccthread.Prelude.{ℕ, ◌==◌, if◌then◌else◌}
use ccthread.Types.{Platform, is_windows}
use ccthread.External.{
  Prog, pure, ◌>>=◌, ◌>>◌, call, load, store, free, func, arg, result, detached, finished,
  cleanup_claimed, handle, tid, close_handle, exit_thread, pthread_exit,
}
use ccthread.Thread.Create.{ccthread_gettid}

-- `if (thread->handle) CloseHandle(thread->handle)`, on Windows
close_own : Platform → ℕ → Prog ℕ
close_own platform p =
    if is_windows platform
    then (do
      h ← load p handle
      if h == 0 then pure 0 else (do again ← load p handle; call (close_handle again)))
    else pure 0

-- What ccthread_wrapper does once `func` has returned `ret`.
unfoldable pub wrapper_end : Platform → ℕ → ℕ → Prog (Unit {0})
unfolding close_own
wrapper_end platform p ret = do
  store p result ret
  store p finished 1
  d ← load p detached
  if d == 0 then pure tt else (do
    claimed ← load p cleanup_claimed
    store p cleanup_claimed 1
    if claimed == 0 then (do close_own platform p; call (free p); pure tt) else pure tt)

-- `body f a` is what the user's function `f` does with its argument `a`. The results are the value of
-- `ccthread_self_ptr` in the thread and what the wrapper returns.
unfoldable pub ccthread_wrapper : (ℕ → ℕ → Prog ℕ) → Platform → ℕ → Prog (ℕ × ℕ)
unfolding wrapper_end ccthread_gettid
ccthread_wrapper body platform p = do
  f ← load p func
  a ← load p arg
  t ← ccthread_gettid platform 0
  store p tid t
  ret ← body f a
  wrapper_end platform p ret
  pure (p, if is_windows platform then 0 else ret)

-- The part of ccthread_exit that reaches the struct, and the new value of `ccthread_self_ptr`.
exit_own : Platform → ℕ → ℕ → Prog ℕ
unfolding close_own
exit_own platform self_ptr v = do
  store self_ptr result v
  store self_ptr finished 1
  d ← load self_ptr detached
  if d == 0 then pure self_ptr else (do
    claimed ← load self_ptr cleanup_claimed
    store self_ptr cleanup_claimed 1
    if claimed == 0
        then (do close_own platform self_ptr; call (free self_ptr); pure 0)
        else pure self_ptr)

unfoldable pub ccthread_exit : Platform → ℕ → ℕ → Prog ℕ
unfolding exit_own
ccthread_exit platform self_ptr v = do
  new_ptr ← (if self_ptr == 0 then pure 0 else exit_own platform self_ptr v)
  call (if is_windows platform then exit_thread 0 else pthread_exit v)
  pure new_ptr
