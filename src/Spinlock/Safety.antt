-- ===== src/Spinlock/Safety.antt =====
-- What holds of ccspinlock.c after every schedule.
use ccthread.Prelude.{ℕ, ◌<◌, ◌≡◌, ◌≢◌, List, arith, ℕ_discrete}
use ccthread.Spinlock.Threads.{idle, Choice, after}
use ccthread.Spinlock.Invariant.{after-Inv}

module _ (tid : ℕ → ℕ) (positive : (i : ℕ) → tid i ≢ 0)
    (distinct : (i j : ℕ) → tid i ≡ tid j → i ≡ j) (ts : List (ℕ × Choice)) where
  -- Mutual exclusion: with thread ids that are not 0 and differ from thread to thread, two threads
  -- that each hold an acquisition not yet released are one thread, after every schedule.
  pub mutual_exclusion :
      (i j a b : ℕ)
      → (after tid ts).pc i ≡ idle a
      → (after tid ts).pc j ≡ idle b
      → 0 < a
      → 0 < b
      → i ≡ j
  mutual_exclusion i j a b p q ha hb =
      ground (arith, (after-Inv tid positive distinct ts).unique i j)

  -- Recursion is counted exactly: with thread ids that are not 0 and differ from thread to thread, after
  -- every schedule a thread outside the calls that holds `d` acquisitions, `d` not 0,
  -- finds the flag set, its own id as the owner, and `recursion` equal to `d`.
  pub recursion_exact :
      (i d : ℕ)
      → (after tid ts).pc i ≡ idle d
      → 0 < d
      → ((after tid ts).mem.flag ≡ 1)
        × ((after tid ts).mem.owner_tid ≡ tid i)
        × ((after tid ts).mem.recursion ≡ d)
  recursion_exact i d p h = ground (
    arith,
    (after-Inv tid positive distinct ts).flagged i,
    (after-Inv tid positive distinct ts).fact i,
  )

  -- The lock is not lost: when every thread is outside the calls and holds nothing, the flag is
  -- clear.
  pub quiet-free : ((i : ℕ) → (after tid ts).pc i ≡ idle 0) → (after tid ts).mem.flag ≡ 0
  quiet-free quiet = elim (ℕ_discrete (after tid ts).mem.flag 0) [
    | yes e ↦ e
    | no n ↦ let (i, o) = (after-Inv tid positive distinct ts).holder n in ground (arith, quiet i)
  ]
