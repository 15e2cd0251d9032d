-- ===== src/Examples/OnceTests/Concurrent/Local.antt =====
-- What a thread of test_concurrent reaches by its own turns.
use ccthread.Prelude.{ℕ, suc, ◌≤◌, ◌<◌, ◌≡◌, refl, ◌≢◌, ◌⊎◌, inl, inr, true, arith, ltb, local}
use ccthread.Once.Threads.{
  Block, Pc, idle, look, swap, pause, restore, enter, running, mark, returned,
}
use ccthread.Once.Threads
use ccthread.Once.Invariant
use ccthread.Once.Invariant.{wakes}
use ccthread.Examples.OnceTests.Concurrent.{
  Place, unborn, calling, storing, returning, ended, again, comparing_again, answered, Shared,
  once_step, step,
}
use ccthread.Examples.OnceTests.Concurrent.Moves.{once_place, At}

module _ (n prev : ℕ) where
  -- A thread in the call leaves it by its own turns when the block says "not started" or "done".
  pub local-calling_fresh :
      (i : ℕ) (m : Shared) (p : Pc)
      → Invariant.Fact m.block p
      → p ≢ returned
      → m.block.once ≡ 0
      → (k : ℕ) × ((local (step n prev) true i k m (calling p)).1 ≡ ended)
  unfolding local step once_step Threads.step
  local-calling_fresh i m idle f r e = (9, ground arith)
  local-calling_fresh i m look f r e = (8, ground arith)
  local-calling_fresh i m swap f r e = (7, ground arith)
  local-calling_fresh i m pause f r e = (9, ground arith)
  local-calling_fresh i m returned f r e = absurd (r refl)
  local-calling_fresh i m p f r e = absurd (ground arith)

  pub local-calling_done :
      (i : ℕ) (m : Shared) (p : Pc)
      → Invariant.Fact m.block p
      → p ≢ returned
      → m.block.once ≡ 2
      → m.block.finished ≡ 1
      → (k : ℕ) × ((local (step n prev) true i k m (calling p)).1 ≡ ended)
  unfolding local step once_step Threads.step
  local-calling_done i m idle f r e d = (4, ground arith)
  local-calling_done i m look f r e d = (3, ground arith)
  local-calling_done i m swap f r e d = (4, ground arith)
  local-calling_done i m restore f r e d = (3, ground arith)
  local-calling_done i m pause f r e d = (4, ground arith)
  local-calling_done i m mark f r e d = (4, ground arith)
  local-calling_done i m returned f r e d = absurd (r refl)
  local-calling_done i m p f r e d = absurd (ground arith)

  pub local-again_done :
      (i : ℕ) (m : Shared) (p : Pc)
      → Invariant.Fact m.block p
      → p ≢ returned
      → m.block.once ≡ 2
      → m.block.finished ≡ 1
      → (k : ℕ) × ((local (step n prev) true i k m (again p)).1 ≡ comparing_again)
  unfolding local step once_step Threads.step
  local-again_done i m idle f r e d = (2, ground arith)
  local-again_done i m look f r e d = (1, ground arith)
  local-again_done i m swap f r e d = (2, ground arith)
  local-again_done i m restore f r e d = (1, ground arith)
  local-again_done i m pause f r e d = (2, ground arith)
  local-again_done i m mark f r e d = (2, ground arith)
  local-again_done i m returned f r e d = absurd (r refl)
  local-again_done i m p f r e d = absurd (ground arith)

  -- The waker of a block that says "in progress".
  pub local-wakes :
      (j : ℕ) (m : Shared) (q : Place)
      → wakes (once_place q) ≡ true
      → (k : ℕ) × ((local (step n prev) true j k m q).0.block.once ≡ 2)
  unfolding local step once_step Threads.step
  local-wakes j m (calling restore) w = (1, ground arith)
  local-wakes j m (calling enter) w = (3, ground arith)
  local-wakes j m (calling running) w = (2, ground arith)
  local-wakes j m (calling mark) w = (1, ground arith)
  local-wakes j m (again restore) w = (1, ground arith)
  local-wakes j m (again enter) w = (3, ground arith)
  local-wakes j m (again running) w = (2, ground arith)
  local-wakes j m (again mark) w = (1, ground arith)
  local-wakes j m (answered r) w = absurd (ground arith)
  local-wakes j m q w = absurd (ground arith)

  pub local-again_wakes :
      (i : ℕ) (m : Shared) (p : Pc)
      → Invariant.Fact m.block p
      → wakes p ≡ true
      → m.block.finished ≡ 1
      → (k : ℕ) × ((local (step n prev) true i k m (again p)).1 ≡ comparing_again)
  unfolding local step once_step Threads.step
  local-again_wakes i m restore f w d = (1, ground arith)
  local-again_wakes i m mark f w d = (2, ground arith)
  local-again_wakes i m p f w d = absurd (ground arith)

  local-unborn :
      (i : ℕ) (m : Shared)
      → i < m.created
      → (k : ℕ) × ((local (step n prev) true i k m (calling idle)).1 ≡ ended)
      → (k : ℕ) × ((local (step n prev) true i k m unborn).1 ≡ ended)
  unfolding local step
  local-unborn i m b (k, h) =
      let t : ltb i m.created ≡ true = ground arith in (suc k, rw (local, step, t) h)

  -- So does a thread that has been created end.
  pub local-worker :
      (i : ℕ) (m : Shared) (q : Place)
      → At n prev i m q
      → i < m.created
      → m.created ≤ n
      → Invariant.Fact m.block (once_place q)
      → (m.block.once ≡ 0) ⊎ ((m.block.once ≡ 2) × (m.block.finished ≡ 1))
      → (k : ℕ) × ((local (step n prev) true i k m q).1 ≡ ended)
  unfolding local step
  local-worker i m unborn a b l f (inl e) =
      local-unborn i m b (local-calling_fresh i m idle tt (λ w. cc) e)
  local-worker i m unborn a b l f (inr e) =
      local-unborn i m b (local-calling_done i m idle tt (λ w. cc) e.0 e.1)
  local-worker i m (calling p) a b l f (inl e) = local-calling_fresh i m p f a.1 e
  local-worker i m (calling p) a b l f (inr e) = local-calling_done i m p f a.1 e.0 e.1
  local-worker i m storing a b l f e = (2, refl)
  local-worker i m returning a b l f e = (1, refl)
  local-worker i m ended a b l f e = (0, refl)
  local-worker i m q a b l f e = absurd (omega (arith, a.0))
