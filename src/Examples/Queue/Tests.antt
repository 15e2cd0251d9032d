-- ===== src/Examples/Queue/Tests.antt =====
-- Schedules of the queue over a concrete mutex with two condition variables, and the theorems at
-- them.
use ccthread.Prelude.{
  ℕ, zero, suc, ◌+◌, ◌-◌, ◌≤◌, ◌<◌, ◌≡◌, refl, Bool, true, false, List, [], ◌∷◌, ◌++◌, arith, ltb,
  ◌==◌, if◌then◌else◌, run,
}
use ccthread.Examples.Ring.{capacity, first}
use ccthread.Examples.Queue.{
  Cond, not_full, not_empty, other, Monitor, Call, push, pop, enqueue, dequeue, step, bounded_step,
  after,
}
use ccthread.Examples.Queue.Moves.{on_its_way}
use ccthread.Examples.Queue.Safety.{queue_fifo, queue_wakeup}

-- The holders, and the sleepers and signals of each condition variable.
record Counts : Type 0 where
  owned : ℕ
  full_sleepers : ℕ
  full_signals : ℕ
  empty_sleepers : ℕ
  empty_signals : ℕ

abbrev sleepers_of : Cond → Counts → ℕ
sleepers_of not_full x = x.full_sleepers
sleepers_of not_empty x = x.empty_sleepers

abbrev signals_of : Cond → Counts → ℕ
signals_of not_full x = x.full_signals
signals_of not_empty x = x.empty_signals

abbrev lock_counts : Counts → Bool × Counts
lock_counts x = if x.owned == 0 then (true, record x { owned = 1 }) else (false, x)

abbrev sleep_counts : Cond → Counts → Counts
sleep_counts not_full x = record x { owned = x.owned - 1; full_sleepers = x.full_sleepers + 1 }
sleep_counts not_empty x = record x { owned = x.owned - 1; empty_sleepers = x.empty_sleepers + 1 }

abbrev wake_counts : Cond → Counts → Bool × Counts
wake_counts not_full x =
    if x.full_signals == 0
    then (false, x)
    else (true, record x { full_sleepers = x.full_sleepers - 1; full_signals = x.full_signals - 1 })
wake_counts not_empty x = if x.empty_signals == 0 then (false, x) else (
  true,
  record x { empty_sleepers = x.empty_sleepers - 1; empty_signals = x.empty_signals - 1 },
)

abbrev signal_counts : Cond → Counts → Counts
signal_counts not_full x =
    if ltb x.full_signals x.full_sleepers then record x { full_signals = x.full_signals + 1 } else x
signal_counts not_empty x =
    if ltb x.empty_signals x.empty_sleepers
    then record x { empty_signals = x.empty_signals + 1 }
    else x

counts_lock :
    (c : Cond) (x : Counts)
    → (lock_counts x).0 ≡ true
    → (x.owned ≡ 0)
      × ((lock_counts x).1.owned ≡ 1)
      × (sleepers_of c (lock_counts x).1 ≡ sleepers_of c x)
      × (signals_of c (lock_counts x).1 ≡ signals_of c x)
counts_lock c x e = ground arith

counts_unlock :
    (c : Cond) (x : Counts)
    → 0 < x.owned
    → (x.owned - 1 + 1 ≡ x.owned)
      × (sleepers_of c (record x { owned = x.owned - 1 }) ≡ sleepers_of c x)
      × (signals_of c (record x { owned = x.owned - 1 }) ≡ signals_of c x)
counts_unlock not_full x e = ground arith
counts_unlock not_empty x e = ground arith

counts_sleep :
    (c : Cond) (x : Counts)
    → 0 < x.owned
    → ((sleep_counts c x).owned + 1 ≡ x.owned)
      × (sleepers_of c (sleep_counts c x) ≡ sleepers_of c x + 1)
      × (signals_of c (sleep_counts c x) ≡ signals_of c x)
counts_sleep not_full x e = ground arith
counts_sleep not_empty x e = ground arith

counts_wake :
    (c : Cond) (x : Counts)
    → 0 < sleepers_of c x
    → (wake_counts c x).0 ≡ true
    → ((wake_counts c x).1.owned ≡ x.owned)
      × (sleepers_of c (wake_counts c x).1 + 1 ≡ sleepers_of c x)
      × (signals_of c (wake_counts c x).1 ≤ signals_of c x)
      × (signals_of c x ≤ signals_of c (wake_counts c x).1 + 1)
counts_wake not_full x b e = ground arith
counts_wake not_empty x b e = ground arith

counts_signal :
    (c : Cond) (x : Counts)
    → ((signal_counts c x).owned ≡ x.owned)
      × (sleepers_of c (signal_counts c x) ≡ sleepers_of c x)
      × (signals_of c x ≤ signals_of c (signal_counts c x))
      × (signals_of c x < sleepers_of c x → signals_of c x < signals_of c (signal_counts c x))
counts_signal not_full x = ground arith
counts_signal not_empty x = ground arith

counts_apart :
    (c : Cond) (x : Counts)
    → (sleepers_of (other c) (sleep_counts c x) ≡ sleepers_of (other c) x)
      × (signals_of (other c) (sleep_counts c x) ≡ signals_of (other c) x)
      × (sleepers_of (other c) (wake_counts c x).1 ≡ sleepers_of (other c) x)
      × (signals_of (other c) (wake_counts c x).1 ≡ signals_of (other c) x)
      × (sleepers_of (other c) (signal_counts c x) ≡ sleepers_of (other c) x)
      × (signals_of (other c) (signal_counts c x) ≡ signals_of (other c) x)
counts_apart not_full x = ground arith
counts_apart not_empty x = ground arith

counts_failure :
    (c : Cond) (x : Counts)
    → ((lock_counts x).0 ≡ false → (lock_counts x).1 ≡ x)
      × ((wake_counts c x).0 ≡ false → (wake_counts c x).1 ≡ x)
counts_failure not_full x = (λ e. ground arith, λ e. ground arith)
counts_failure not_empty x = (λ e. ground arith, λ e. ground arith)

abbrev nothing : Counts
nothing = record {
  owned = 0;
  full_sleepers = 0;
  full_signals = 0;
  empty_sleepers = 0;
  empty_signals = 0;
}

counts_fresh : (c : Cond) → (nothing.owned ≡ 0) × (sleepers_of c nothing ≡ 0)
counts_fresh not_full = (refl, refl)
counts_fresh not_empty = (refl, refl)

abbrev counts : Monitor
counts = record {
  State = Counts;
  fresh = nothing;
  holders = λ x. x.owned;
  sleepers = sleepers_of;
  signals = signals_of;
  lock = lock_counts;
  unlock = λ x. record x { owned = x.owned - 1 };
  sleep = sleep_counts;
  wake = wake_counts;
  signal = signal_counts;
  fresh_law = counts_fresh;
  lock_law = counts_lock;
  unlock_law = counts_unlock;
  sleep_law = counts_sleep;
  wake_law = counts_wake;
  signal_law = counts_signal;
  apart_law = counts_apart;
  failure_law = counts_failure;
}

abbrev turns : ℕ → ℕ × Call → List (ℕ × Call)
turns zero t = []
turns (suc k) t = t ∷ turns k t

-- Thread 0 sleeps for an item; thread 1 pushes one, up to its signal.
abbrev item_pushed : List (ℕ × Call)
item_pushed = turns 4 (0, pop) ++ turns 4 (1, push 100)

-- Then the signal; thread 1 pushes another item, and thread 0 wakes and pops the first one.
abbrev item_popped : List (ℕ × Call)
item_popped = item_pushed ++ (turns 8 (1, push 101) ++ turns 5 (0, pop))

item_popped_result : (after counts 2 item_popped).mem.got ≡ 100 ∷ []
unfolding run step bounded_step enqueue dequeue
item_popped_result = refl

queue_fifo_example :
    ((after counts 2 item_popped).mem.got
      ≡ first (after counts 2 item_popped).mem.log (after counts 2 item_popped).mem.popped)
    × ((after counts 2 item_popped).mem.ring.count + (after counts 2 item_popped).mem.popped
        ≡ (after counts 2 item_popped).mem.pushed)
    × ((after counts 2 item_popped).mem.ring.count ≤ capacity)
queue_fifo_example = queue_fifo counts 2 item_popped

queue_wakeup_example :
    (i : ℕ) × (i < 2) × (0 < on_its_way not_empty ((after counts 2 item_pushed).pc i))
unfolding run step bounded_step enqueue dequeue
queue_wakeup_example = queue_wakeup counts 2 item_pushed not_empty (omega arith) (omega arith) refl
