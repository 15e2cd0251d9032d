-- ===== src/Sem/Locking.antt =====
-- The operations of ccsem.c on POSIX and the semaphore's mutex.
use ccthread.Prelude.{ℕ, zero, suc, ◌≡◌, some, List, ◌∷◌, arith}
use ccthread.Types.{Status}
use ccthread.External.{
  Timespec, Env, World, Resource, held, lock, call, cond_wait, cond_timedwait, mutex_lock,
  clock_gettime_sec, clock_gettime_nsec,
}
use ccthread.Deadline.{deadline}
use ccthread.Sem.Posix.{
  wait_loop, wait_posix, trywait_posix, timedwait_loop, timedwait_posix, post_posix,
}
use ccthread.Clock.{clock_id}

wait_loop-held :
    (fuel p : ℕ) (env : Env) (w : World) (rest : List Resource) (s : Status)
    → held w.history ≡ (lock, p) ∷ rest
    → (wait_loop fuel p env w).0 ≡ some s
    → held (wait_loop fuel p env w).1.history ≡ rest
unfolding wait_loop
wait_loop-held zero p env w rest s h e = cc
wait_loop-held (suc fuel) p env w rest s h e =
    ground (arith, wait_loop-held fuel p env (call (cond_wait p p) env w).1 rest s)

timedwait_loop-held :
    (fuel p : ℕ) (ts : Timespec) (env : Env) (w : World) (rest : List Resource) (s : Status)
    → held w.history ≡ (lock, p) ∷ rest
    → (timedwait_loop fuel p ts env w).0 ≡ some s
    → held (timedwait_loop fuel p ts env w).1.history ≡ rest
unfolding timedwait_loop
timedwait_loop-held zero p ts env w rest s h e = cc
timedwait_loop-held (suc fuel) p ts env w rest s h e =
    ground (arith, timedwait_loop-held fuel p ts env (call (cond_timedwait p p ts) env w).1 rest s)

wait_posix-held :
    (fuel p : ℕ) (env : Env) (w : World) (s : Status)
    → (wait_posix fuel p env w).0 ≡ some s
    → held (wait_posix fuel p env w).1.history ≡ held w.history
unfolding wait_posix
wait_posix-held fuel p env w s e =
    ground (arith, wait_loop-held fuel p env (call (mutex_lock p) env w).1 (held w.history) s)

trywait_posix-held :
    (p : ℕ) (env : Env) (w : World) → held (trywait_posix p env w).1.history ≡ held w.history
unfolding trywait_posix
trywait_posix-held p env w = ground arith

timedwait_posix-held :
    (fuel p ms : ℕ) (env : Env) (w : World) (s : Status)
    → (timedwait_posix fuel p ms env w).0 ≡ some s
    → held (timedwait_posix fuel p ms env w).1.history ≡ held w.history
unfolding timedwait_posix
timedwait_posix-held fuel p ms env w s e =
    let w₁ = (call (mutex_lock p) env w).1 in
    let w₂ = (call (clock_gettime_sec (clock_id env.clocks)) env w₁).1 in
    let w₃ = (call (clock_gettime_nsec (clock_id env.clocks)) env w₂).1 in
    let now : Timespec = record {
      tv_sec = env.answer w₁.time (clock_gettime_sec (clock_id env.clocks));
      tv_nsec = env.answer w₂.time (clock_gettime_nsec (clock_id env.clocks));
    } in
    ground (arith, timedwait_loop-held fuel p (deadline now ms) env w₃ (held w.history) s)

post_posix-held :
    (p : ℕ) (env : Env) (w : World) → held (post_posix p env w).1.history ≡ held w.history
unfolding post_posix
post_posix-held p env w = ground arith

-- Every way out of ccsem_wait, ccsem_trywait, ccsem_timedwait and ccsem_post on POSIX unlocks the
-- mutex exactly if it was locked, errors and timeouts included, however often the waits wake up.
pub operations_unlock :
    (fuel p timeout_ms : ℕ) (env : Env) (w : World) (s : Status)
    → ((wait_posix fuel p env w).0 ≡ some s
        → held (wait_posix fuel p env w).1.history ≡ held w.history)
      × (held (trywait_posix p env w).1.history ≡ held w.history)
      × ((timedwait_posix fuel p timeout_ms env w).0 ≡ some s
          → held (timedwait_posix fuel p timeout_ms env w).1.history ≡ held w.history)
      × (held (post_posix p env w).1.history ≡ held w.history)
operations_unlock fuel p ms env w s = (
  wait_posix-held fuel p env w s,
  trywait_posix-held p env w,
  timedwait_posix-held fuel p ms env w s,
  post_posix-held p env w,
)
