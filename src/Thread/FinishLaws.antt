-- ===== src/Thread/FinishLaws.antt =====
-- The end of a thread: returning from its function and ccthread_exit.
use ccthread.Prelude.{ℕ, ◌≡◌, ◌≢◌, ◌⊎◌, false, List, ◌∷◌, arith, ◌==◌, if◌then◌else◌}
use ccthread.Types.{Platform, is_windows}
use ccthread.External.{
  Env, World, Resource, held, block, handle, detached, cleanup_claimed, exit_thread, pthread_exit,
  call,
}
use ccthread.Thread.Finish.{wrapper_end, ccthread_exit}

-- Exiting is returning: ccthread_exit does to the struct that `ccthread_self_ptr` points to, and calls,
-- what ccthread_wrapper does with its struct after the function returned the same value, and then
-- ends the thread; where that pointer is NULL it only ends the thread.
pub exit-wrapper :
    (platform : Platform) (self_ptr v : ℕ) (env : Env) (w : World)
    → (ccthread_exit platform self_ptr v env w).1
      ≡ (call
          (if is_windows platform then exit_thread 0 else pthread_exit v)
          env
          (if self_ptr == 0 then w else (wrapper_end platform self_ptr v env w).1)).1
unfolding ccthread_exit wrapper_end
exit-wrapper platform self_ptr v env w = ground arith

-- The end of a thread that is not detached, or whose struct is claimed already, gives nothing back;
-- the end of a detached one gives back the struct, on Windows if its handle is closed.
pub wrapper_end-held :
    (platform : Platform) (p v : ℕ) (env : Env) (w : World) (rest : List Resource)
    → (w.heap p detached ≡ 0 → held (wrapper_end platform p v env w).1.history ≡ held w.history)
      × (w.heap p cleanup_claimed ≢ 0
          → held (wrapper_end platform p v env w).1.history ≡ held w.history)
      × (w.heap p detached ≢ 0
          → w.heap p cleanup_claimed ≡ 0
          → (w.heap p handle ≡ 0) ⊎ (is_windows platform ≡ false)
          → p ≢ 0
          → held w.history ≡ (block, p) ∷ rest
          → held (wrapper_end platform p v env w).1.history ≡ rest)
unfolding wrapper_end
wrapper_end-held platform p v env w rest =
    (λ h. ground arith, λ h. ground arith, λ d c z n h. ground arith)
