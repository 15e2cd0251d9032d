-- ===== src/Examples/Queue/Moves.antt =====
-- What one step of queue_push or queue_pop does to the mutex, the conditions and the ring.
use ccthread.Prelude.{ℕ, ◌+◌, ◌-◌, ◌≤◌, ◌<◌, ◌≡◌, sym, ◌∙◌, ap, true, false, ◌∷◌, arith}
use ccthread.Examples.Ring.{capacity, first, first-add, first-update}
use ccthread.Examples.Queue.Represents.{Represents, enqueue-Represents, dequeue-Represents}
use ccthread.Examples.Queue.{
  Cond, not_full, not_empty, Monitor, Ring, enqueue, dequeue, Call, push, pop, must_wait, Pc, idle,
  want, test, doze, asleep, relock, act, notify, leave, Shared, perform, step,
}

-- Who holds the mutex.
abbrev pub holding : Pc → ℕ
holding (test _) = 1
holding (doze _) = 1
holding (act _) = 1
holding (notify _) = 1
holding leave = 1
holding _ = 0

-- Who sleeps on a condition variable.
abbrev pub sleeping : Cond → Pc → ℕ
sleeping not_full (asleep (push _)) = 1
sleeping not_empty (asleep pop) = 1
sleeping _ _ = 0

-- Who is going to look at the count for a condition, or to use it, or to signal it.
abbrev pub on_its_way : Cond → Pc → ℕ
on_its_way not_full (relock (push _)) = 1
on_its_way not_full (test (push _)) = 1
on_its_way not_full (act (push _)) = 1
on_its_way not_full (notify pop) = 1
on_its_way not_empty (relock pop) = 1
on_its_way not_empty (test pop) = 1
on_its_way not_empty (act pop) = 1
on_its_way not_empty (notify (push _)) = 1
on_its_way _ _ = 0

-- What a condition offers: free slots, or items.
abbrev pub offered : Cond → Ring → ℕ
offered not_full q = capacity - q.count
offered not_empty q = q.count

module _ (monitor : Monitor) where
  open monitor use {
    holders, sleepers, signals, fresh_law, lock_law, unlock_law, sleep_law, wake_law, signal_law,
    apart_law, failure_law,
  }

  abbrev pub Fact : Shared monitor → Pc → Type 0
  Fact m (act k) = must_wait k m.ring.count ≡ false
  Fact m (doze k) = must_wait k m.ring.count ≡ true
  Fact m _ = Unit {0}

  -- The ring is the log, and the popped items are the first ones of the log.
  pub record InOrder (m : Shared monitor) : Type 0 where
    pub represents : Represents m.log m.popped m.pushed m.ring
    pub taken : m.got ≡ first m.log m.popped

  -- If some sleeper has got no signal, everything that it waits for has a signal or one of `active`
  -- threads for it.
  abbrev pub Served : Cond → Shared monitor → ℕ → Type 0
  Served c m active =
      signals c m.state < sleepers c m.state → offered c m.ring ≤ signals c m.state + active

  perform-InOrder :
      (k : Call) (m : Shared monitor)
      → must_wait k m.ring.count ≡ false
      → InOrder m
      → InOrder (perform monitor k m)
  perform-InOrder (push item) m h o = record {
    represents =
        enqueue-Represents m.log m.popped m.pushed item m.ring (ground (arith, o.represents))
          o.represents;
    taken =
        o.taken
        ∙ sym (first-update m.log m.popped m.pushed item (omega (arith, o.represents.counted)));
  }
  perform-InOrder pop m h o =
      let (oldest, rest) =
        dequeue-Represents m.log m.popped m.pushed m.ring (ground arith) o.represents in
      record {
        represents = rest;
        taken = rw (oldest, first-add m.log m.popped) (ap (λ l. m.log m.popped ∷ l) o.taken);
      }

  -- What a step does to the counts of the mutex and its condition variables.
  pub record Moved (m m' : Shared monitor) (p p' : Pc) : Type 0 where
    pub single' : holders m'.state ≤ 1
    pub held' : holders m'.state + holding p ≡ holders m.state + holding p'
    pub full' :
        sleepers not_full m'.state + sleeping not_full p
        ≡ sleepers not_full m.state + sleeping not_full p'
    pub empty' :
        sleepers not_empty m'.state + sleeping not_empty p
        ≡ sleepers not_empty m.state + sleeping not_empty p'
    pub fact' : Fact m' p'

  pub step-Moved :
      (k : Call) (m : Shared monitor) (p : Pc)
      → holders m.state ≤ 1
      → holding p ≤ holders m.state
      → sleeping not_full p ≤ sleepers not_full m.state
      → sleeping not_empty p ≤ sleepers not_empty m.state
      → Fact m p
      → Moved m (step monitor k m p).0 p (step monitor k m p).1
  unfolding step enqueue dequeue
  step-Moved k m (want pop) o h s z f =
      ground
        (arith, lock_law not_full m.state, lock_law not_empty m.state, failure_law not_full m.state)
  step-Moved k m p o h s z f = ground (
    arith,
    lock_law not_full m.state,
    lock_law not_empty m.state,
    failure_law not_full m.state,
    failure_law not_empty m.state,
    unlock_law not_full m.state,
    unlock_law not_empty m.state,
    sleep_law not_full m.state,
    sleep_law not_empty m.state,
    wake_law not_full m.state,
    wake_law not_empty m.state,
    signal_law not_full m.state,
    signal_law not_empty m.state,
    apart_law not_full m.state,
    apart_law not_empty m.state,
  )

  pub step-Served :
      (c : Cond) (k : Call) (m : Shared monitor) (p : Pc) (rest : ℕ)
      → holding p ≤ holders m.state
      → sleeping not_full p ≤ sleepers not_full m.state
      → sleeping not_empty p ≤ sleepers not_empty m.state
      → Fact m p
      → Served c m (rest + on_its_way c p)
      → Served c (step monitor k m p).0 (rest + on_its_way c (step monitor k m p).1)
  unfolding step enqueue dequeue
  step-Served not_full k m (want pop) rest h s z f v =
      ground (arith, lock_law not_full m.state, failure_law not_full m.state)
  step-Served c k m p rest h s z f v = ground (
    arith,
    lock_law not_full m.state,
    lock_law not_empty m.state,
    failure_law not_full m.state,
    failure_law not_empty m.state,
    unlock_law not_full m.state,
    unlock_law not_empty m.state,
    sleep_law not_full m.state,
    sleep_law not_empty m.state,
    wake_law not_full m.state,
    wake_law not_empty m.state,
    signal_law not_full m.state,
    signal_law not_empty m.state,
    apart_law not_full m.state,
    apart_law not_empty m.state,
  )

  pub step-InOrder :
      (k : Call) (m : Shared monitor) (p : Pc)
      → Fact m p
      → InOrder m
      → InOrder (step monitor k m p).0
  unfolding step
  step-InOrder k m (act j) f o = perform-InOrder j m f o
  step-InOrder k m idle f o = o
  step-InOrder k m (want j) f o = record { represents = o.represents; taken = o.taken }
  step-InOrder k m (test j) f o = o
  step-InOrder k m (doze j) f o = record { represents = o.represents; taken = o.taken }
  step-InOrder k m (asleep j) f o = record { represents = o.represents; taken = o.taken }
  step-InOrder k m (relock j) f o = record { represents = o.represents; taken = o.taken }
  step-InOrder k m (notify j) f o = record { represents = o.represents; taken = o.taken }
  step-InOrder k m leave f o = record { represents = o.represents; taken = o.taken }

  pub Fact-other :
      (k : Call) (m : Shared monitor) (p q : Pc)
      → holding p + holding q ≤ 1
      → Fact m q
      → Fact (step monitor k m p).0 q
  unfolding step enqueue dequeue
  Fact-other k m (want pop) q z g = ground arith
  Fact-other k m p q z g = ground arith
