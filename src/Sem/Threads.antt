-- ===== src/Sem/Threads.antt =====
-- ccsem_wait, ccsem_trywait, ccsem_timedwait and ccsem_post of ccsem.c on POSIX under `n` threads.
-- Every access and every call of pthreads is one step.
use ccthread.Prelude.{
  ℕ, ◌+◌, ◌-◌, ◌^◌, ◌%◌, ◌≡◌, ◌≤◌, ◌<◌, Bool, true, false, List, ◌&&◌, ltb, ◌==◌, if◌then◌else◌,
  System, run,
}

-- The mutex with its condition variable: how many threads hold the mutex, how many sleep in
-- `pthread_cond_wait`, and how many of these a signal has reached. Locking is attempted until it
-- succeeds. `pthread_cond_wait` is `sleep`, which releases the mutex, then `wake`, attempted until it
-- succeeds and possible without a signal, then locking; `pthread_cond_timedwait` may `expire` in place
-- of waking, which does not use up a signal that another sleeper could get. Calls out of order have
-- no law.
pub record Monitor : Type 1 where
  pub State : Type 0
  pub fresh : State
  pub holders : State → ℕ
  pub sleepers : State → ℕ
  pub signals : State → ℕ
  pub lock : State → Bool × State
  pub unlock : State → State
  pub sleep : State → State
  pub wake : State → Bool × State
  pub expire : State → State
  pub signal : State → State
  pub fresh_law : (holders fresh ≡ 0) × (sleepers fresh ≡ 0) × (signals fresh ≡ 0)
  pub lock_law :
      (s : State)
      → (lock s).0 ≡ true
      → (holders s ≡ 0)
        × (holders (lock s).1 ≡ 1)
        × (sleepers (lock s).1 ≡ sleepers s)
        × (signals (lock s).1 ≡ signals s)
  pub unlock_law :
      (s : State)
      → 0 < holders s
      → (holders (unlock s) + 1 ≡ holders s)
        × (sleepers (unlock s) ≡ sleepers s)
        × (signals (unlock s) ≡ signals s)
  pub sleep_law :
      (s : State)
      → 0 < holders s
      → (holders (sleep s) + 1 ≡ holders s)
        × (sleepers (sleep s) ≡ sleepers s + 1)
        × (signals (sleep s) ≡ signals s)
  pub wake_law :
      (s : State)
      → 0 < sleepers s
      → (wake s).0 ≡ true
      → (holders (wake s).1 ≡ holders s)
        × (sleepers (wake s).1 + 1 ≡ sleepers s)
        × (signals (wake s).1 ≤ signals s)
        × (signals s ≤ signals (wake s).1 + 1)
  pub expire_law :
      (s : State)
      → 0 < sleepers s
      → (holders (expire s) ≡ holders s)
        × (sleepers (expire s) + 1 ≡ sleepers s)
        × (signals s < sleepers s → signals (expire s) ≡ signals s)
        × (sleepers s ≤ signals s → sleepers (expire s) ≤ signals (expire s))
  pub failure_law :
      (s : State) → ((lock s).0 ≡ false → (lock s).1 ≡ s) × ((wake s).0 ≡ false → (wake s).1 ≡ s)
  pub signal_law :
      (s : State)
      → (holders (signal s) ≡ holders s)
        × (sleepers (signal s) ≡ sleepers s)
        × (signals s ≤ signals (signal s))
        × (signals s < sleepers s → signals s < signals (signal s))

-- The call that an idle thread makes next. In a timed wait `timed` lets the deadline pass.
pub data Choice : Type 0 where
  wait try timed post : Choice

abbrev is_over : Choice → Bool
is_over timed = true
is_over _ = false

-- A place in a wait says whether the wait is timed.
pub data Pc : Type 0 where
  idle : Pc
  want : Choice → Pc  -- `pthread_mutex_lock(&sem->mutex)` of each call
  test : Bool → Pc  -- `while (sem->count == 0)`
  doze : Bool → Pc  -- before `pthread_cond_wait` or `pthread_cond_timedwait`
  asleep : Bool → Pc  -- inside it, the mutex released
  relock : Bool → Pc  -- inside it, woken, before it has the mutex again
  expired : Pc  -- inside it, timed out, before it has the mutex again
  try_test : Pc  -- `if (sem->count > 0)` of ccsem_trywait
  first_test : Pc  -- `if (sem->count > 0)` of ccsem_timedwait
  take : Pc  -- `sem->count--`
  give : Pc  -- `sem->count++`
  notify : Pc  -- `pthread_cond_signal(&sem->cond)`
  leave : Pc  -- `pthread_mutex_unlock(&sem->mutex)`, and the return

abbrev locked : Choice → Pc
locked wait = test false
locked try = try_test
locked timed = first_test
locked post = give

module _ (monitor : Monitor) where
  open monitor use {State, fresh, lock, unlock, sleep, wake, expire, signal}

  -- `struct ccsem_impl`, with counts of the permits taken and posted so far.
  pub record Shared : Type 0 where
    pub state : State
    pub count : ℕ
    pub taken : ℕ
    pub posted : ℕ

  unfoldable pub step : Choice → Shared → Pc → Shared × Pc
  step c m idle = (m, want c)
  step c m (want k) =
      (record m { state = (lock m.state).1 }, if (lock m.state).0 then locked k else want k)
  step c m (test t) = (m, if m.count == 0 then doze t else take)
  step c m (doze t) = (record m { state = sleep m.state }, asleep t)
  step c m (asleep t) =
      if t && is_over c
      then (record m { state = expire m.state }, expired)
      else (record m { state = (wake m.state).1 }, if (wake m.state).0 then relock t else asleep t)
  step c m (relock t) =
      (record m { state = (lock m.state).1 }, if (lock m.state).0 then test t else relock t)
  step c m expired =
      (record m { state = (lock m.state).1 }, if (lock m.state).0 then leave else expired)
  step c m first_test = (m, if ltb 0 m.count then take else test true)
  step c m try_test = (m, if ltb 0 m.count then take else leave)
  step c m take = (record m { count = m.count - 1; taken = m.taken + 1 }, leave)
  step c m give = (record m { count = (m.count + 1) % 2 ^ 32; posted = m.posted + 1 }, notify)
  step c m notify = (record m { state = signal m.state }, leave)
  step c m leave = (record m { state = unlock m.state }, idle)

  -- Only the first `n` threads move.
  unfoldable pub bounded_step : ℕ → ℕ → Choice → Shared → Pc → Shared × Pc
  bounded_step n i c m p = if ltb i n then step c m p else (m, p)

  abbrev pub init : ℕ → System Shared Pc
  init initial_count = record {
    mem = record { state = fresh; count = initial_count; taken = 0; posted = 0 };
    pc = λ _. idle;
  }

  abbrev pub after : ℕ → ℕ → List (ℕ × Choice) → System Shared Pc
  after initial_count n ts = run (bounded_step n) ts (init initial_count)
