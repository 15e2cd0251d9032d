-- ===== src/Sem/Schedules.antt =====
-- Schedules of the semaphore on POSIX, over a concrete mutex with its condition variable, and the
-- theorems at them.
use ccthread.Prelude.{
  ℕ, ◌+◌, ◌-◌, ◌^◌, ◌≤◌, ◌<◌, ◌≡◌, refl, Bool, true, false, List, [], ◌∷◌, ◌++◌, arith, ltb, ◌==◌,
  if◌then◌else◌, run,
}
use ccthread.Sem.Threads.{Monitor, Choice, wait, timed, post, idle, take, step, bounded_step, after}
use ccthread.Sem.Safety.{permits_exact}

-- A mutex with its condition variable as three counters: its holders, the sleepers, the signals.
abbrev Counts : Type 0
Counts = ℕ × ℕ × ℕ

abbrev lock_counts : Counts → Bool × Counts
lock_counts (h, s, g) = if h == 0 then (true, (1, s, g)) else (false, (h, s, g))

abbrev wake_counts : Counts → Bool × Counts
wake_counts (h, s, g) = if g == 0 then (false, (h, s, g)) else (true, (h, s - 1, g - 1))

abbrev expire_counts : Counts → Counts
expire_counts (h, s, g) = (h, s - 1, if ltb g s then g else s - 1)

abbrev signal_counts : Counts → Counts
signal_counts (h, s, g) = if ltb g s then (h, s, g + 1) else (h, s, g)

counts_lock :
    (x : Counts)
    → (lock_counts x).0 ≡ true
    → (x.0 ≡ 0)
      × ((lock_counts x).1.0 ≡ 1)
      × ((lock_counts x).1.1 ≡ x.1)
      × ((lock_counts x).1.2 ≡ x.2)
counts_lock (h, s, g) e = ground arith

counts_wake :
    (x : Counts)
    → 0 < x.1
    → (wake_counts x).0 ≡ true
    → ((wake_counts x).1.0 ≡ x.0)
      × ((wake_counts x).1.1 + 1 ≡ x.1)
      × ((wake_counts x).1.2 ≤ x.2)
      × (x.2 ≤ (wake_counts x).1.2 + 1)
counts_wake (h, s, g) b e = ground arith

counts_expire :
    (x : Counts)
    → 0 < x.1
    → ((expire_counts x).0 ≡ x.0)
      × ((expire_counts x).1 + 1 ≡ x.1)
      × (x.2 < x.1 → (expire_counts x).2 ≡ x.2)
      × (x.1 ≤ x.2 → (expire_counts x).1 ≤ (expire_counts x).2)
counts_expire (h, s, g) b = ground arith

counts_failure :
    (x : Counts)
    → ((lock_counts x).0 ≡ false → (lock_counts x).1 ≡ x)
      × ((wake_counts x).0 ≡ false → (wake_counts x).1 ≡ x)
counts_failure (h, s, g) = (λ e. ground arith, λ e. ground arith)

counts_signal :
    (x : Counts)
    → ((signal_counts x).0 ≡ x.0)
      × ((signal_counts x).1 ≡ x.1)
      × (x.2 ≤ (signal_counts x).2)
      × (x.2 < x.1 → x.2 < (signal_counts x).2)
counts_signal (h, s, g) = ground arith

abbrev counts : Monitor
counts = record {
  State = Counts;
  fresh = (0, 0, 0);
  holders = λ x. x.0;
  sleepers = λ x. x.1;
  signals = λ x. x.2;
  lock = lock_counts;
  unlock = λ x. (x.0 - 1, x.1, x.2);
  sleep = λ x. (x.0 - 1, x.1 + 1, x.2);
  wake = wake_counts;
  expire = expire_counts;
  signal = signal_counts;
  fresh_law = (refl, refl, refl);
  lock_law = counts_lock;
  unlock_law = λ x h. (omega arith, refl, refl);
  sleep_law = λ x h. (omega arith, refl, refl);
  wake_law = counts_wake;
  expire_law = counts_expire;
  failure_law = counts_failure;
  signal_law = counts_signal;
}

-- Thread 0 waits and falls asleep; thread 1 posts up to its signal.
abbrev posting_run : List (ℕ × Choice)
posting_run = (0, wait) ∷ (0, wait) ∷ (0, wait) ∷ (0, wait) ∷ (1, post) ∷ (1, post) ∷ (1, post) ∷ []

-- Then the signal, and thread 0 takes the permit.
abbrev woken_run : List (ℕ × Choice)
woken_run =
    posting_run ++ ((1, post) ∷ (1, post) ∷ (0, wait) ∷ (0, wait) ∷ (0, wait) ∷ (0, wait) ∷ [])

woken_run_takes :
    ((after counts 0 2 woken_run).mem.taken ≡ 1) × ((after counts 0 2 woken_run).mem.count ≡ 0)
unfolding run step bounded_step
woken_run_takes = (refl, refl)

-- Thread 0 waits with a deadline, which passes.
abbrev expired_run : List (ℕ × Choice)
expired_run =
    (0, timed)
    ∷ (0, timed)
    ∷ (0, timed)
    ∷ (0, timed)
    ∷ (0, timed)
    ∷ (0, timed)
    ∷ (0, timed)
    ∷ (0, timed)
    ∷ []

expired_run_gives_up :
    ((after counts 0 2 expired_run).pc 0 ≡ idle)
    × ((after counts 0 2 expired_run).mem.state ≡ (0, 0, 0))
    × ((after counts 0 2 expired_run).mem.taken ≡ 0)
unfolding run step bounded_step
expired_run_gives_up = (refl, refl, refl)

permits_exact_example :
    (0 + (after counts 0 2 woken_run).mem.posted < 2 ^ 32
      → (after counts 0 2 woken_run).mem.count + (after counts 0 2 woken_run).mem.taken
        ≡ 0 + (after counts 0 2 woken_run).mem.posted)
    × ((i : ℕ)
        → (after counts 0 2 woken_run).pc i ≡ take
        → 0 < (after counts 0 2 woken_run).mem.count)
permits_exact_example = permits_exact counts 0 2 woken_run
