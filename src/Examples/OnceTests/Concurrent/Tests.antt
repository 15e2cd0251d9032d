-- ===== src/Examples/OnceTests/Concurrent/Tests.antt =====
-- test_concurrent on two threads, and its theorems at inputs that meet their hypotheses.
use ccthread.Prelude.{
  ℕ, zero, suc, ◌+◌, ◌<◌, ◌≡◌, refl, ◌⊎◌, Bool, true, false, List, [], ◌∷◌, arith, run,
}
use ccthread.Once.Threads
use ccthread.Examples.OnceTests.Concurrent.{answered, after, once_step, step}
use ccthread.Examples.OnceTests.Concurrent.Safety.{concurrent_passes}
use ccthread.Examples.OnceTests.Concurrent.Waking.{CanPass}
use ccthread.Examples.OnceTests.Concurrent.Progress.{concurrent-CanPass}

-- `k` rounds in which every thread has one turn, the last thread created last.
abbrev rounds : ℕ → List (ℕ × Bool)
rounds zero = []
rounds (suc k) = (2, true) ∷ (0, true) ∷ (1, true) ∷ rounds k

-- All creations succeed: the test returns 1. The second one fails: it returns 0.
two_threads : (after 2 5 (rounds 20)).pc 2 ≡ answered true
unfolding run step once_step Threads.step
two_threads = refl

one_fails : (after 2 5 ((2, true) ∷ (2, false) ∷ [])).pc 2 ≡ answered false
unfolding run step
one_fails = refl

concurrent_passes_example :
    ((after 2 5 (rounds 20)).mem.created < 2)
    ⊎ ((◌≡◌ {A = Bool} true true) × ((after 2 5 (rounds 20)).mem.s_init_count ≡ 5 + 1))
concurrent_passes_example = concurrent_passes 2 5 (rounds 20) true (omega arith) two_threads

concurrent-CanPass_example :
    (((after 2 5 (rounds 4)).mem.created < 2) × ((after 2 5 (rounds 4)).pc 2 ≡ answered false))
    ⊎ CanPass 2 5 (after 2 5 (rounds 4))
concurrent-CanPass_example = concurrent-CanPass 2 5 (rounds 4) (omega arith)
