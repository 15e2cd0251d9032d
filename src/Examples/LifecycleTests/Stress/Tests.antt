-- ===== src/Examples/LifecycleTests/Stress/Tests.antt =====
-- Two threads of test_stress_join, and the theorems at inputs that meet their hypotheses.
use ccthread.Prelude.{ℕ, zero, suc, ◌+◌, ◌*◌, ◌<◌, ◌≡◌, refl, ◌⊎◌, true, false, none, List, [], ◌∷◌}
use ccthread.Types.{linux, mingw}
use ccthread.Lifecycle.Race.{ended, child_step, owner_step}
use ccthread.Examples.LifecycleTests.Stress.{
  finished, Move, worker_turn, main_turn, worker_step, main_step, step, run, after,
  test_normal_join,
}
use ccthread.Examples.LifecycleTests.Stress.Safety.{joins_pass, joins_free_all}

-- `k` rounds in which each thread has one turn; `malloc` would give the address 7, or 8 in thread 1.
abbrev rounds : ℕ → List Move
rounds zero = []
rounds (suc k) = main_turn true ∷ worker_turn 0 7 ∷ worker_turn 1 8 ∷ rounds k

abbrev worker_first : ℕ → List Move
worker_first zero = []
worker_first (suc k) = worker_turn 0 7 ∷ main_turn true ∷ worker_first k

-- Thread 1 has `malloc` fail: the address 7 is in use.
abbrev poor_rounds : ℕ → List Move
poor_rounds zero = []
poor_rounds (suc k) = main_turn true ∷ worker_turn 0 7 ∷ worker_turn 1 7 ∷ poor_rounds k

rich_run :
    ((after linux 2 (λ i. i * i) (rounds 24)).main ≡ finished)
    × ((after linux 2 (λ i. i * i) (rounds 24)).tests_pass ≡ 6)
unfolding run step worker_step main_step child_step owner_step
rich_run = (refl, refl)

poor_run :
    ((after linux 2 (λ i. i * i) (poor_rounds 24)).main ≡ finished)
    × ((after linux 2 (λ i. i * i) (poor_rounds 24)).tests_fail ≡ 1)
unfolding run step worker_step main_step child_step owner_step
poor_run = (refl, refl)

-- On Windows, with the thread's turns first.
one_run :
    let s = test_normal_join mingw (worker_first 14) in (s.main ≡ finished) × (s.tests_pass ≡ 3)
unfolding run step worker_step main_step child_step owner_step
one_run = (refl, refl)

joins_pass_example :
    ((after linux 2 (λ i. i * i) (rounds 24)).tests_pass
        + (after linux 2 (λ i. i * i) (rounds 24)).tests_fail
      ≡ 3 * 2)
    × (0 < (after linux 2 (λ i. i * i) (rounds 24)).tests_fail
        → (i : ℕ) × (i < 2)
          × (((after linux 2 (λ i. i * i) (rounds 24)).slots i).is_created ≡ false
              ⊎ ((((after linux 2 (λ i. i * i) (rounds 24)).slots i).address ≡ 0)
                  × (((after linux 2 (λ i. i * i) (rounds 24)).slots i).state.child ≡ ended))))
joins_pass_example = joins_pass linux 2 (λ i. i * i) (rounds 24) rich_run.0

joins_free_all_example :
    ((i : ℕ)
      → ((after linux 2 (λ i. i * i) (poor_rounds 24)).slots i).is_created ≡ true
      → (((after linux 2 (λ i. i * i) (poor_rounds 24)).slots i).state.child ≡ ended)
        × (((after linux 2 (λ i. i * i) (poor_rounds 24)).slots i).state.frees ≡ 1)
        × (((after linux 2 (λ i. i * i) (poor_rounds 24)).slots i).state.used_free ≡ false))
    × ((a : ℕ) → (after linux 2 (λ i. i * i) (poor_rounds 24)).ints a ≡ none)
joins_free_all_example = joins_free_all linux 2 (λ i. i * i) (poor_rounds 24) poor_run.0
