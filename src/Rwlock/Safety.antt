-- ===== src/Rwlock/Safety.antt =====
-- What holds of ccrwlock.c on Windows after every schedule.
use ccthread.Prelude.{
  ℕ, ◌<◌, ◌≡◌, ◌≢◌, ◌∙◌, List, arith, ℕ_discrete, sum-zero, le-sum, two-le-sum, ap,
}
use ccthread.Rwlock.Threads.{
  SrwLock, Mode, reader, writer, Pc, idle, inside, un_clear, un_exclusive, un_shared, Choice, after,
}
use ccthread.Rwlock.Invariant.{reads, writes, Inv, after-Inv}

module _ (srw : SrwLock) (tid : ℕ → ℕ) (positive : (i : ℕ) → tid i ≢ 0)
    (distinct : (i j : ℕ) → tid i ≡ tid j → i ≡ j) (n : ℕ) (ts : List (ℕ × Choice)) where
  -- On Windows, with thread ids that are not 0 and differ from thread to thread, a writer is alone after
  -- every schedule: while a thread is between ccrwlock_wrlock and ccrwlock_unlock, no other of the `n`
  -- threads is between a locking call of either mode and its unlock.
  pub writer_alone :
      (i j : ℕ) (k : Mode)
      → i < n
      → j < n
      → (after srw tid n ts).pc i ≡ inside writer
      → (after srw tid n ts).pc j ≡ inside k
      → i ≡ j
  writer_alone i j k bi bj p q = elim (ℕ_discrete i j) [
    | yes e ↦ e
    | no ne ↦ absurd (clash i j k ne bi bj p q)
  ]
    where
      open (after-Inv srw tid n positive distinct ts) use {modes, shares, owners}

      pcs : ℕ → Pc
      pcs = (after srw tid n ts).pc

      clash :
          (i j : ℕ) (k : Mode)
          → i ≢ j
          → i < n
          → j < n
          → pcs i ≡ inside writer
          → pcs j ≡ inside k
          → ⊥
      clash i j reader ne bi bj p q =
          let w : writes (pcs i) ≡ 1 = rw p in
          let r : reads (pcs j) ≡ 1 = rw q in
          let lw = le-sum (λ l. writes (pcs l)) n i bi in
          let lr = le-sum (λ l. reads (pcs l)) n j bj in
          let alone = modes.exclusive (omega (arith, shares, lr, r)) in
          omega (arith, owners, lw, w, alone)
      clash i j writer ne bi bj p q =
          let w : writes (pcs i) ≡ 1 = rw p in
          let v : writes (pcs j) ≡ 1 = rw q in
          let two = two-le-sum (λ l. writes (pcs l)) n i j bi bj ne in
          omega (arith, owners, two, w, v, modes.single)

  -- ccrwlock_unlock tells readers from writers: no thread that took the lock for reading gets to the
  -- exclusive release or clears `writer_tid`, and no thread that took it for writing gets to the shared
  -- release.
  pub unlock_mode :
      (i : ℕ)
      → ((after srw tid n ts).pc i ≢ un_exclusive reader)
        × ((after srw tid n ts).pc i ≢ un_clear reader)
        × ((after srw tid n ts).pc i ≢ un_shared writer)
  unlock_mode i =
      let f = (after-Inv srw tid n positive distinct ts).fact i in
      (λ e. rw e at f, λ e. rw e at f, λ e. rw e at f)

  -- Nothing is left behind: when every thread is outside, the slim lock is held in neither mode.
  pub idle-free :
      ((i : ℕ) → (after srw tid n ts).pc i ≡ idle)
      → (srw.readers (after srw tid n ts).mem.lock ≡ 0)
        × (srw.writers (after srw tid n ts).mem.lock ≡ 0)
  idle-free quiet = (
    inv.shares ∙ sum-zero _ n (λ j. ap reads (quiet j)),
    inv.owners ∙ sum-zero _ n (λ j. ap writes (quiet j)),
  )
    where
      inv : Inv srw tid n (after srw tid n ts).mem (after srw tid n ts).pc
      inv = after-Inv srw tid n positive distinct ts
