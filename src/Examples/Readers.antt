-- ===== src/Examples/Readers.antt =====
-- examples/ccrwlock_basic.c: readers and writers of one value under a read-write lock, on the steps of
-- the Windows lock. Every access to the lock and to `g_value` is one step.
pub mod Invariant
pub mod Safety
mod Tests
use ccthread.Prelude.{ℕ, ◌+◌, ◌-◌, Bool, true, false, List, ltb, ◌==◌, if◌then◌else◌, System, run}
use ccthread.Rwlock.Threads.{
  SrwLock, Mode, reader, writer, Pc, idle, inside, Choice, read, write, Rw,
}
use ccthread.Rwlock.Threads

-- A thread with `r` rounds of its loop left, the one that it is in included, and its place in the
-- lock's calls. The mode says which of the functions `reader` and `writer` it runs.
pub data Place : Type 0 where
  acquiring : (k : Mode) (r : ℕ) (p : Pc) → Place  -- `ccrwlock_rdlock` or `ccrwlock_wrlock`
  loading : (k : Mode) (r : ℕ) → Place  -- `int v = g_value`, or the read of `g_value++`
  storing : (r v : ℕ) → Place  -- its write
  releasing : (k : Mode) (r : ℕ) (p : Pc) → Place  -- `ccrwlock_unlock`; `r` rounds follow
  finished : Place

abbrev pub choice_of : Mode → Choice
choice_of reader = read
choice_of writer = write

abbrev pub is_inside : Pc → Bool
is_inside (inside k) = true
is_inside p = false

abbrev pub is_idle : Pc → Bool
is_idle idle = true
is_idle p = false

-- `for (int i = 0; i < 50; i++)`, and `i < 10` in a writer
abbrev pub next_round : Mode → ℕ → Place
next_round k r = if r == 0 then finished else acquiring k r idle

module _ (srw : SrwLock) where
  -- `*g_rwlock` and `g_value`
  pub record Shared : Type 0 where
    pub lock : Rw srw
    pub value : ℕ

  -- The next access of the thread with OS thread id `t`.
  unfoldable pub step : ℕ → Unit {0} → Shared → Place → Shared × Place
  step t c m (acquiring k r p) =
      let (lock, p') = Threads.step srw t (choice_of k) m.lock p in
      (record m { lock = lock }, if is_inside p' then loading k r else acquiring k r p')
  step t c m (loading reader r) = (m, releasing reader (r - 1) (inside reader))
  step t c m (loading writer r) = (m, storing r m.value)
  step t c m (storing r v) = (record m { value = v + 1 }, releasing writer (r - 1) (inside writer))
  step t c m (releasing k r p) =
      let (lock, p') = Threads.step srw t (choice_of k) m.lock p in
      (record m { lock = lock }, if is_idle p' then next_round k r else releasing k r p')
  step t c m finished = (m, finished)

  -- `main` starts the threads on a fresh lock: thread `i` runs `role i` for `rounds i` rounds.
  abbrev pub init : (ℕ → Mode) → (ℕ → ℕ) → System Shared Place
  init role rounds = record {
    mem = record { lock = (Threads.init srw).mem; value = 0 };
    pc = λ i. next_round (role i) (rounds i);
  }

  -- Only the first `n` threads move.
  unfoldable pub bounded_step : (ℕ → ℕ) → ℕ → ℕ → Unit {0} → Shared → Place → Shared × Place
  bounded_step tid n i c m p = if ltb i n then step (tid i) c m p else (m, p)

  abbrev pub after : (ℕ → ℕ) → (ℕ → Mode) → (ℕ → ℕ) → ℕ → List (ℕ × Unit {0}) → System Shared Place
  after tid role rounds n ts = run (bounded_step tid n) ts (init role rounds)
