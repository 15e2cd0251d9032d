-- ===== src/Examples/Counter.antt =====
-- examples/ccspinlock_basic.c: threads that add to one counter under a spinlock. Every access to the
-- lock and to `g_counter` is one step.
pub mod Invariant
pub mod Safety
pub mod Trylock
mod Tests
use ccthread.Prelude.{ℕ, ◌+◌, ◌-◌, Bool, true, false, List, ltb, ◌==◌, if◌then◌else◌, System, run}
use ccthread.Spinlock.Threads.{
  Spin, zeroed, Pc, idle, try_test, try_match, try_load, try_store, try_swap, try_owner, try_depth,
  un_test, un_load, un_store, un_owner, un_clear, un_flag, overflow, lock, unlock,
}
use ccthread.Spinlock.Threads

-- `*g_lock` and `g_counter`
pub record Shared : Type 0 where
  pub spin : Spin
  pub counter : ℕ

-- A worker with `k` rounds of its loop left, the one that it is in included, and its place in the
-- lock's calls.
pub data Place : Type 0 where
  acquiring : (k : ℕ) (p : Pc) → Place  -- `ccspinlock_lock(g_lock)`
  loading : (k : ℕ) (p : Pc) → Place  -- the read of `g_counter++`
  storing : (k v : ℕ) (p : Pc) → Place  -- its write
  releasing : (k : ℕ) (p : Pc) → Place  -- `ccspinlock_unlock(g_lock)`; `k` rounds follow
  finished : (p : Pc) → Place

-- The acquisitions that a place in the lock's calls counts.
abbrev pub depth : Pc → ℕ
depth (idle d) = d
depth (try_test d) = d
depth (try_match d) = d
depth (try_load d) = d
depth (try_store d _) = d
depth (try_swap d) = d
depth (try_owner d) = d
depth (try_depth d) = d
depth (un_test d) = d
depth (un_load d) = d
depth (un_store d _) = d
depth (un_owner d) = d
depth (un_clear d) = d
depth (un_flag d) = d
depth (overflow d) = d

abbrev pub is_outside : Pc → Bool
is_outside (idle _) = true
is_outside _ = false

-- `for (int i = 0; i < 100; i++)`
abbrev pub next_round : ℕ → Pc → Place
next_round k p = if k == 0 then finished p else acquiring k p

-- The next access of the worker with OS thread id `t`. `ccspinlock_lock` returns after the attempt
-- that has taken the lock.
unfoldable pub step : ℕ → Unit {0} → Shared → Place → Shared × Place
step t c m (acquiring k p) =
    let (spin, p') = Threads.step t lock m.spin p in
    (record m { spin = spin }, if ltb (depth p) (depth p') then loading k p' else acquiring k p')
step t c m (loading k p) = (m, storing k m.counter p)
step t c m (storing k v p) = (record m { counter = v + 1 }, releasing (k - 1) p)
step t c m (releasing k p) =
    let (spin, p') = Threads.step t unlock m.spin p in
    (record m { spin = spin }, if is_outside p' then next_round k p' else releasing k p')
step t c m (finished p) = (m, finished p)

-- `main` starts the workers on a fresh lock.
abbrev pub init : ℕ → System Shared Place
init rounds = record {
  mem = record { spin = zeroed; counter = 0 };
  pc = λ _. next_round rounds (idle 0);
}

-- Only the first `n` threads move.
unfoldable pub bounded_step : (ℕ → ℕ) → ℕ → ℕ → Unit {0} → Shared → Place → Shared × Place
bounded_step tid n i c m p = if ltb i n then step (tid i) c m p else (m, p)

abbrev pub after : (ℕ → ℕ) → ℕ → ℕ → List (ℕ × Unit {0}) → System Shared Place
after tid rounds n ts = run (bounded_step tid n) ts (init rounds)
