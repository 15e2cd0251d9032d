-- ===== src/Examples/Queue/Safety.antt =====
-- What holds of the queue of examples/cccondvar_basic.c after every schedule.
use ccthread.Prelude.{ℕ, ◌+◌, ◌≤◌, ◌<◌, ◌≡◌, List, arith, sum-positive}
use ccthread.Examples.Ring.{capacity, first}
use ccthread.Examples.Queue.{Cond, Monitor, Call, after}
use ccthread.Examples.Queue.Moves.{offered, on_its_way}
use ccthread.Examples.Queue.Invariant.{after-Inv}

module _ (monitor : Monitor) (n : ℕ) (ts : List (ℕ × Call)) where
  -- The queue is a bounded FIFO: after every schedule of `n` threads in queue_push and queue_pop the
  -- popped items are the first ones that were pushed, in order and each once, the count is what is
  -- pushed and not popped, and it does not exceed the capacity.
  pub queue_fifo :
      ((after monitor n ts).mem.got
        ≡ first (after monitor n ts).mem.log (after monitor n ts).mem.popped)
      × ((after monitor n ts).mem.ring.count + (after monitor n ts).mem.popped
          ≡ (after monitor n ts).mem.pushed)
      × ((after monitor n ts).mem.ring.count ≤ capacity)
  queue_fifo =
      let o = (after-Inv monitor n ts).order in (o.taken, o.represents.counted, o.represents.fits)

  -- One `cccondvar_signal` for each item is enough: whenever there is an item, or a free slot, while
  -- a thread sleeps for it and no signal for it is under way, one of the `n` threads is going to look
  -- for it, to use it, or to signal it.
  pub queue_wakeup :
      (c : Cond)
      → 0 < offered c (after monitor n ts).mem.ring
      → 0 < monitor.sleepers c (after monitor n ts).mem.state
      → monitor.signals c (after monitor n ts).mem.state ≡ 0
      → (i : ℕ) × (i < n) × (0 < on_its_way c ((after monitor n ts).pc i))
  queue_wakeup c o s z =
      sum-positive (λ i. on_its_way c ((after monitor n ts).pc i)) n
        (omega (arith, (after-Inv monitor n ts).served c (omega arith), o, z))
