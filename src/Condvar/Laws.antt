-- ===== src/Condvar/Laws.antt =====
-- What the functions of cccondvar.c do.
use ccthread.Prelude.{
  ℕ, suc, ◌+◌, ◌*◌, ◌↔◌, ◌<◌, ◌≡◌, ◌≢◌, ◌⊎◌, false, List, [], ◌∷◌, ◌++◌, arith, ◌==◌, if◌then◌else◌,
}
use ccthread.Types.{Platform, is_windows, is_apple, success, error, timeout}
use ccthread.External.{
  Env, World, Resource, held, block, cond, call, cond_wait, cv_sleep_cs, cv_sleep_srw, recursive,
  Timespec, cond_timedwait, clock_gettime_sec, clock_gettime_nsec,
}
use ccthread.Deadline.{IsNormal, nanoseconds, deadline, deadline_exact}
use ccthread.Sem.Posix.{etimedout}
use ccthread.Sem.Native.{infinite}
use ccthread.Condvar.Calls.{
  cccondvar_create, cccondvar_wait, cccondvar_timedwait, cccondvar_destroy,
}
use ccthread.Clock.{clock_id}

-- What a condition variable at `p` holds.
abbrev pub parts : Platform → ℕ → List Resource
parts platform p = if is_windows platform then (block, p) ∷ [] else (cond, p) ∷ (block, p) ∷ []

-- Whatever the system answers, cccondvar_create returns NULL and holds nothing more than before, or
-- returns a condition variable and holds just its parts; and destroying the result at once leaves
-- what was held before.
pub held-cccondvar_create :
    (platform : Platform) (env : Env) (w : World)
    → let (p, w') = cccondvar_create platform env w in
      (held w'.history ≡ (if p == 0 then [] else parts platform p) ++ held w.history)
      × (held (cccondvar_destroy platform p env w').1.history ≡ held w.history)
unfolding cccondvar_create cccondvar_destroy
held-cccondvar_create platform env w = (ground arith, ground arith)

-- A wait with a NULL argument is refused without any call to the system; any other wait makes one
-- system call that sleeps, on the condition variable and the mutex it was given, in the form that fits
-- the type of the mutex on Windows.
pub wait_sleeps :
    (platform : Platform) (cv mtx : ℕ) (env : Env) (w : World)
    → ((cv ≡ 0) ⊎ (mtx ≡ 0) → cccondvar_wait platform cv mtx env w ≡ (error, w))
      × (cv ≢ 0
          → mtx ≢ 0
          → (cccondvar_wait platform cv mtx env w).1
            ≡ (call
                (if is_windows platform
                  then (if w.heap mtx recursive == 0
                      then cv_sleep_srw cv mtx infinite
                      else cv_sleep_cs cv mtx infinite)
                  else cond_wait cv mtx)
                env
                w).1)
unfolding cccondvar_wait
wait_sleeps platform cv mtx env w = (λ h. ground arith, λ h k. ground arith)

-- On Linux and the BSDs a timed wait reads the clock once and sleeps once, until a normalised deadline
-- that lies exactly `timeout_ms` after the time it read, and it reports a timeout exactly when that
-- sleep answers `ETIMEDOUT`, and success exactly when it answers 0.
pub timedwait_deadline :
    (platform : Platform) (cv mtx timeout_ms : ℕ) (env : Env) (w : World)
    → is_windows platform ≡ false
    → is_apple platform ≡ false
    → cv ≢ 0
    → mtx ≢ 0
    → env.answer (suc w.time) (clock_gettime_nsec (clock_id env.clocks)) < 1000000000
    → (ts : Timespec) × (rc : ℕ) × ((cccondvar_timedwait platform cv mtx timeout_ms env w).1.history
        ≡ (cond_timedwait cv mtx ts, rc)
          ∷ (
            (clock_gettime_nsec (clock_id env.clocks)),
            env.answer (suc w.time) (clock_gettime_nsec (clock_id env.clocks)),
          )
          ∷ (
            (clock_gettime_sec (clock_id env.clocks)),
            env.answer w.time (clock_gettime_sec (clock_id env.clocks)),
          )
          ∷ w.history)
      × IsNormal ts
      × (nanoseconds ts
          ≡ env.answer w.time (clock_gettime_sec (clock_id env.clocks)) * 1000000000
            + env.answer (suc w.time) (clock_gettime_nsec (clock_id env.clocks))
            + timeout_ms * 1000000)
      × (((cccondvar_timedwait platform cv mtx timeout_ms env w).0 ≡ timeout) ↔ (rc ≡ etimedout))
      × (((cccondvar_timedwait platform cv mtx timeout_ms env w).0 ≡ success) ↔ (rc ≡ 0))
unfolding cccondvar_timedwait
timedwait_deadline platform cv mtx ms env w no_win no_apple hc hm normal =
    let now : Timespec = record {
      tv_sec = env.answer w.time (clock_gettime_sec (clock_id env.clocks));
      tv_nsec = env.answer (suc w.time) (clock_gettime_nsec (clock_id env.clocks));
    } in
    let ts = deadline now ms in
    let exact = deadline_exact now ms normal in
    (
      ts,
      env.answer (suc (suc w.time)) (cond_timedwait cv mtx ts),
      ground arith,
      exact.0,
      exact.1,
      (λ e. ground arith, λ e. ground arith),
      (λ e. ground arith, λ e. ground arith),
    )
