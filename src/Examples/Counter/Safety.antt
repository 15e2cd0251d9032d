-- ===== src/Examples/Counter/Safety.antt =====
-- What examples/ccspinlock_basic.c counts, after every schedule.
use ccthread.Prelude.{ℕ, ◌*◌, ◌<◌, ◌≡◌, ◌≢◌, List, arith, sum, sum-zero_below}
use ccthread.Spinlock.Threads.{Pc}
use ccthread.Examples.Counter.{storing, finished, after}
use ccthread.Examples.Counter.Invariant.{At, left, after-Inv}

module _ (tid : ℕ → ℕ) (positive : (i : ℕ) → tid i ≢ 0)
    (distinct : (i j : ℕ) → tid i ≡ tid j → i ≡ j) (rounds n : ℕ) (ts : List (ℕ × Unit {0})) where
  -- No update is lost: with thread ids that are not 0 and differ from thread to thread, after every
  -- schedule that has led `n` workers of `rounds` rounds each to their end, the counter is
  -- `n * rounds`.
  pub counter_exact :
      ((i : ℕ) → i < n → (p : Pc) × ((after tid rounds n ts).pc i ≡ finished p))
      → (after tid rounds n ts).mem.counter ≡ n * rounds
  counter_exact f = omega (arith, total, done)
    where
      open (after-Inv tid positive distinct rounds n ts) use {total}

      done : sum (λ i. left ((after tid rounds n ts).pc i)) n ≡ 0
      done = sum-zero_below (λ i. left ((after tid rounds n ts).pc i)) n (λ j b. rw (f j b).1)

  -- At every moment, a worker that is about to write the counter writes what is there plus 1: no
  -- other worker has written since it read.
  pub reads_fresh :
      (i k v : ℕ) (p : Pc)
      → (after tid rounds n ts).pc i ≡ storing k v p
      → v ≡ (after tid rounds n ts).mem.counter
  reads_fresh i k v p e = fresh.2
    where
      open (after-Inv tid positive distinct rounds n ts) use {place}

      fresh : At (after tid rounds n ts).mem (storing k v p)
      fresh = rw e at (place i)
