-- ===== src/Examples/Queue.antt =====
-- examples/cccondvar_basic.c: a bounded queue on a mutex and two condition variables, under `n`
-- threads in queue_push and queue_pop.
pub mod Represents
pub mod Moves
pub mod Invariant
pub mod Safety
pub mod Create
pub mod Objects
pub mod Destroy
mod CreateTests
mod Tests
use ccthread.Prelude.{
  ℕ, ◌+◌, ◌-◌, ◌%◌, ◌≡◌, ◌≤◌, ◌<◌, Bool, true, false, List, [], ◌∷◌, ltb, ◌==◌, if◌then◌else◌,
  update, System, run,
}
use ccthread.Examples.Ring.{capacity}

-- `q->not_full` and `q->not_empty`
pub data Cond : Type 0 where
  not_full not_empty : Cond

abbrev pub other : Cond → Cond
other not_full = not_empty
other not_empty = not_full

-- The mutex with its two condition variables: how many threads hold the mutex, and for each condition
-- variable how many sleep on it and how many of these a signal has reached. Locking is attempted until
-- it succeeds. A wait is `sleep`, which releases the mutex, then `wake`, attempted until it succeeds
-- and possible without a signal, then locking. Calls out of order have no law.
pub record Monitor : Type 1 where
  pub State : Type 0
  pub fresh : State
  pub holders : State → ℕ
  pub sleepers : Cond → State → ℕ
  pub signals : Cond → State → ℕ
  pub lock : State → Bool × State
  pub unlock : State → State
  pub sleep : Cond → State → State
  pub wake : Cond → State → Bool × State
  pub signal : Cond → State → State
  pub fresh_law : (c : Cond) → (holders fresh ≡ 0) × (sleepers c fresh ≡ 0)
  pub lock_law :
      (c : Cond) (s : State)
      → (lock s).0 ≡ true
      → (holders s ≡ 0)
        × (holders (lock s).1 ≡ 1)
        × (sleepers c (lock s).1 ≡ sleepers c s)
        × (signals c (lock s).1 ≡ signals c s)
  pub unlock_law :
      (c : Cond) (s : State)
      → 0 < holders s
      → (holders (unlock s) + 1 ≡ holders s)
        × (sleepers c (unlock s) ≡ sleepers c s)
        × (signals c (unlock s) ≡ signals c s)
  pub sleep_law :
      (c : Cond) (s : State)
      → 0 < holders s
      → (holders (sleep c s) + 1 ≡ holders s)
        × (sleepers c (sleep c s) ≡ sleepers c s + 1)
        × (signals c (sleep c s) ≡ signals c s)
  pub wake_law :
      (c : Cond) (s : State)
      → 0 < sleepers c s
      → (wake c s).0 ≡ true
      → (holders (wake c s).1 ≡ holders s)
        × (sleepers c (wake c s).1 + 1 ≡ sleepers c s)
        × (signals c (wake c s).1 ≤ signals c s)
        × (signals c s ≤ signals c (wake c s).1 + 1)
  pub signal_law :
      (c : Cond) (s : State)
      → (holders (signal c s) ≡ holders s)
        × (sleepers c (signal c s) ≡ sleepers c s)
        × (signals c s ≤ signals c (signal c s))
        × (signals c s < sleepers c s → signals c s < signals c (signal c s))
  -- An operation on one condition variable leaves the other one alone.
  pub apart_law :
      (c : Cond) (s : State)
      → (sleepers (other c) (sleep c s) ≡ sleepers (other c) s)
        × (signals (other c) (sleep c s) ≡ signals (other c) s)
        × (sleepers (other c) (wake c s).1 ≡ sleepers (other c) s)
        × (signals (other c) (wake c s).1 ≡ signals (other c) s)
        × (sleepers (other c) (signal c s) ≡ sleepers (other c) s)
        × (signals (other c) (signal c s) ≡ signals (other c) s)
  pub failure_law :
      (c : Cond) (s : State)
      → ((lock s).0 ≡ false → (lock s).1 ≡ s) × ((wake c s).0 ≡ false → (wake c s).1 ≡ s)

-- `queue_t`, its ring
pub record Ring : Type 0 where
  pub buf : ℕ → ℕ
  pub head : ℕ
  pub tail : ℕ
  pub count : ℕ

-- What queue_push and queue_pop do to the ring between their wait and their signal.
unfoldable pub enqueue : ℕ → Ring → Ring
enqueue item q = record {
  buf = update q.buf q.tail item;
  head = q.head;
  tail = (q.tail + 1) % capacity;
  count = q.count + 1;
}

unfoldable pub dequeue : Ring → ℕ × Ring
dequeue q = (q.buf q.head, record q { head = (q.head + 1) % capacity; count = q.count - 1 })

-- `queue_push(q, item)` and `queue_pop(q)`
pub data Call : Type 0 where
  push : (item : ℕ) → Call
  pop : Call

-- The condition variable that a call waits on; it signals the other one.
abbrev pub cond_of : Call → Cond
cond_of (push item) = not_full
cond_of pop = not_empty

-- The test of its `while`.
abbrev pub must_wait : Call → ℕ → Bool
must_wait (push item) count = count == capacity
must_wait pop count = count == 0

pub data Pc : Type 0 where
  idle : Pc
  want : Call → Pc  -- `ccmutex_lock(q->mtx)`
  test : Call → Pc  -- `while (q->count == ...)`
  doze : Call → Pc  -- before `cccondvar_wait`
  asleep : Call → Pc  -- inside it, the mutex released
  relock : Call → Pc  -- inside it, woken, before it has the mutex again
  act : Call → Pc  -- the accesses to the ring, which the mutex protects
  notify : Call → Pc  -- `cccondvar_signal`
  leave : Pc  -- `ccmutex_unlock(q->mtx)`, and the return

module _ (monitor : Monitor) where
  open monitor use {State, fresh, lock, unlock, sleep, wake, signal}

  -- The queue, with a record of what was pushed, of how much was pushed and popped, and of the popped
  -- items, the last one first.
  pub record Shared : Type 0 where
    pub state : State
    pub ring : Ring
    pub log : ℕ → ℕ
    pub pushed : ℕ
    pub popped : ℕ
    pub got : List ℕ

  abbrev pub perform : Call → Shared → Shared
  perform (push item) m = record m {
    ring = enqueue item m.ring;
    log = update m.log m.pushed item;
    pushed = m.pushed + 1;
  }
  perform pop m = record m {
    ring = (dequeue m.ring).1;
    popped = m.popped + 1;
    got = (dequeue m.ring).0 ∷ m.got;
  }

  unfoldable pub step : Call → Shared → Pc → Shared × Pc
  step k m idle = (m, want k)
  step c m (want k) =
      (record m { state = (lock m.state).1 }, if (lock m.state).0 then test k else want k)
  step c m (test k) = (m, if must_wait k m.ring.count then doze k else act k)
  step c m (doze k) = (record m { state = sleep (cond_of k) m.state }, asleep k)
  step c m (asleep k) = (
    record m { state = (wake (cond_of k) m.state).1 },
    if (wake (cond_of k) m.state).0 then relock k else asleep k,
  )
  step c m (relock k) =
      (record m { state = (lock m.state).1 }, if (lock m.state).0 then test k else relock k)
  step c m (act k) = (perform k m, notify k)
  step c m (notify k) = (record m { state = signal (other (cond_of k)) m.state }, leave)
  step c m leave = (record m { state = unlock m.state }, idle)

  -- Only the first `n` threads move.
  unfoldable pub bounded_step : ℕ → ℕ → Call → Shared → Pc → Shared × Pc
  bounded_step n i c m p = if ltb i n then step c m p else (m, p)

  -- The ring as `calloc` gives it.
  abbrev pub init : System Shared Pc
  init = record {
    mem = record {
      state = fresh;
      ring = record { buf = λ _. 0; head = 0; tail = 0; count = 0 };
      log = λ _. 0;
      pushed = 0;
      popped = 0;
      got = [];
    };
    pc = λ _. idle;
  }

  abbrev pub after : ℕ → List (ℕ × Call) → System Shared Pc
  after n ts = run (bounded_step n) ts init
