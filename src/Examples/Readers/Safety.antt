-- ===== src/Examples/Readers/Safety.antt =====
-- What examples/ccrwlock_basic.c counts, after every schedule.
use ccthread.Prelude.{ℕ, ◌<◌, ◌≡◌, ◌≢◌, List, arith, sum, sum-zero_below, le-sum}
use ccthread.Rwlock.Threads.{SrwLock, Mode, reader}
use ccthread.Rwlock.Invariant.{reads, writes}
use ccthread.Examples.Readers.{Place, loading, storing, finished, after}
use ccthread.Examples.Readers.Invariant.{lock_place, left, quota, after-Inv}

module _ (srw : SrwLock) (tid : ℕ → ℕ) (role : ℕ → Mode) (rounds : ℕ → ℕ) (n : ℕ)
    (ts : List (ℕ × Unit {0})) (positive : (i : ℕ) → tid i ≢ 0)
    (distinct : (i j : ℕ) → tid i ≡ tid j → i ≡ j) where
  open (after-Inv srw tid role rounds n ts positive distinct) use {locking, total}
  open locking use {modes, shares, owners}

  abbrev places : ℕ → Place
  places = (after srw tid role rounds n ts).pc

  -- No update is lost: with thread ids that are not 0 and differ from thread to thread, after every
  -- schedule that has led the `n` threads to their end, the value is the sum of the rounds of the
  -- writers among them.
  pub value_exact :
      ((i : ℕ) → i < n → (after srw tid role rounds n ts).pc i ≡ finished)
      → (after srw tid role rounds n ts).mem.value ≡ sum (quota role rounds) n
  value_exact f =
      let done : sum (λ i. left (places i)) n ≡ 0 =
        sum-zero_below (λ i. left (places i)) n (λ j b. rw (f j b)) in
      omega (arith, total, done)

  -- Readers see no half-made update: while one thread is about to read the value as a reader, no
  -- thread is between the read and the write of an addition.
  pub reader_apart :
      (i j r s v : ℕ)
      → i < n
      → j < n
      → (after srw tid role rounds n ts).pc i ≡ loading reader r
      → (after srw tid role rounds n ts).pc j ≢ storing s v
  reader_apart i j r s v bi bj p q =
      let x : reads (lock_place (places i)) ≡ 1 = rw p in
      let y : writes (lock_place (places j)) ≡ 1 = rw q in
      let lr = le-sum (λ l. reads (lock_place (places l))) n i bi in
      let lw = le-sum (λ l. writes (lock_place (places l))) n j bj in
      let alone = modes.exclusive (omega (arith, shares, lr, x)) in
      omega (arith, owners, lw, y, alone)
