-- ===== src/Clock/Laws.antt =====
-- The clock by which a wait sleeps, and the clock from which its deadline was read.
use ccthread.Prelude.{ℕ, suc, ◌≡◌, ◌≢◌, sym, ◌∙◌, ◌⊎◌, ◌↔◌, false, arith, ◌==◌, if◌then◌else◌}
use ccthread.Types.{plain, Platform, is_windows, is_apple}
use ccthread.External.{
  Env, World, ClockId, realtime, calloc, mutex_init, cond_init, condattr_setclock,
}
use ccthread.Clock.{clock_id, cond_clock}
use ccthread.Sem.Create.{ccsem_create}
use ccthread.Condvar.Calls.{cccondvar_create}

clock_or_realtime :
    (a : ℕ) (c : ClockId) → ((if a == 0 then c else realtime) ≡ c) ↔ ((a ≡ 0) ⊎ (c ≡ realtime))
clock_or_realtime a c = (λ e. ground arith, λ e. ground arith)

module _ (platform : Platform) (env : Env) (w : World) where
  abbrev set : ℕ → ℕ
  set time = env.answer time (condattr_setclock (clock_id env.clocks))

  sem_clock :
      (n : ℕ)
      → is_windows platform ≡ false
      → is_apple platform ≡ false
      → (ccsem_create platform n env w).0 ≢ 0
      → cond_clock (ccsem_create platform n env w).0 (ccsem_create platform n env w).1.history
        ≡ (if set (suc (suc (suc w.time))) == 0 then clock_id env.clocks else realtime)
  unfolding ccsem_create
  sem_clock n no_win no_apple made = ground arith

  sem_made :
      (n : ℕ)
      → is_windows platform ≡ false
      → is_apple platform ≡ false
      → env.answer w.time calloc ≢ 0
      → env.answer (suc w.time) (mutex_init plain (env.answer w.time calloc)) ≡ 0
      → env.answer (suc (suc (suc (suc w.time)))) (cond_init (env.answer w.time calloc)) ≡ 0
      → (ccsem_create platform n env w).0 ≡ env.answer w.time calloc
  unfolding ccsem_create
  sem_made n no_win no_apple there locks waits = ground arith

  condvar_clock :
      is_windows platform ≡ false
      → is_apple platform ≡ false
      → (cccondvar_create platform env w).0 ≢ 0
      → cond_clock (cccondvar_create platform env w).0 (cccondvar_create platform env w).1.history
        ≡ (if set (suc (suc w.time)) == 0 then clock_id env.clocks else realtime)
  unfolding cccondvar_create
  condvar_clock no_win no_apple made = ground arith

  -- On POSIX, if memory is there and the mutex and the condition variable can be made, ccsem_create
  -- returns the semaphore whatever `pthread_condattr_setclock` answered, and it sleeps by the clock that
  -- its deadlines are read from exactly if that call succeeded or that clock is CLOCK_REALTIME.
  pub ccsem_create-clock :
      (n : ℕ)
      → is_windows platform ≡ false
      → is_apple platform ≡ false
      → env.answer w.time calloc ≢ 0
      → env.answer (suc w.time) (mutex_init plain (env.answer w.time calloc)) ≡ 0
      → env.answer (suc (suc (suc (suc w.time)))) (cond_init (env.answer w.time calloc)) ≡ 0
      → ((ccsem_create platform n env w).0 ≡ env.answer w.time calloc)
        × ((cond_clock (ccsem_create platform n env w).0 (ccsem_create platform n env w).1.history
              ≡ clock_id env.clocks)
            ↔ ((set (suc (suc (suc w.time))) ≡ 0) ⊎ (clock_id env.clocks ≡ realtime)))
  ccsem_create-clock n no_win no_apple there locks waits =
      let made = sem_made n no_win no_apple there locks waits in
      let some_block : (ccsem_create platform n env w).0 ≢ 0 = λ z. there (sym made ∙ z) in
      (
        made,
        rw (sem_clock n no_win no_apple some_block) (clock_or_realtime _ (clock_id env.clocks)),
      )

  -- The same of a condition variable.
  pub cccondvar_create-clock :
      is_windows platform ≡ false
      → is_apple platform ≡ false
      → (cccondvar_create platform env w).0 ≢ 0
      → (cond_clock (cccondvar_create platform env w).0 (cccondvar_create platform env w).1.history
          ≡ clock_id env.clocks)
        ↔ ((set (suc (suc w.time)) ≡ 0) ⊎ (clock_id env.clocks ≡ realtime))
  cccondvar_create-clock no_win no_apple made =
      rw (condvar_clock no_win no_apple made) (clock_or_realtime _ (clock_id env.clocks))
