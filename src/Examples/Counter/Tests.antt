-- ===== src/Examples/Counter/Tests.antt =====
-- Runs of examples/ccspinlock_basic.c.
use ccthread.Prelude.{ℕ, zero, suc, ◌+◌, ◌*◌, ◌<◌, ◌≡◌, refl, ◌≢◌, List, [], ◌∷◌, ◌++◌, arith, run}
use ccthread.Spinlock.Threads.{Pc, idle}
use ccthread.Spinlock.Threads
use ccthread.Examples.Counter.{storing, finished, step, bounded_step, after}
use ccthread.Examples.Counter.Safety.{counter_exact, reads_fresh}

abbrev tid : ℕ → ℕ
tid i = 100 + i

tid_positive : (i : ℕ) → tid i ≢ 0
tid_positive i e = omega arith

tid_distinct : (i j : ℕ) → tid i ≡ tid j → i ≡ j
tid_distinct i j e = omega arith

-- `k` turns of thread `i`.
abbrev turns : ℕ → ℕ → List (ℕ × Unit {0})
turns zero i = []
turns (suc k) i = (i, tt) ∷ turns k i

-- Two workers of two rounds; the second one first finds the lock taken.
abbrev both : List (ℕ × Unit {0})
both = turns 6 0 ++ (turns 4 1 ++ (turns 24 0 ++ turns 30 1))

both_finished : (i : ℕ) → i < 2 → (p : Pc) × ((after tid 2 2 both).pc i ≡ finished p)
unfolding run bounded_step step Threads.step
both_finished zero b = (idle 0, refl)
both_finished (suc zero) b = (idle 0, refl)
both_finished (suc (suc i)) b = absurd (omega arith)

counter_exact_example : (after tid 2 2 both).mem.counter ≡ 2 * 2
counter_exact_example = counter_exact tid tid_positive tid_distinct 2 2 both both_finished

both_counted : (after tid 2 2 both).mem.counter ≡ 4
unfolding run bounded_step step Threads.step
both_counted = refl

-- Thread 0 has read the counter, and thread 1 spins.
abbrev one_inside : List (ℕ × Unit {0})
one_inside = turns 6 0 ++ turns 3 1

one_inside_place : (after tid 2 2 one_inside).pc 0 ≡ storing 2 0 (idle 1)
unfolding run bounded_step step Threads.step
one_inside_place = refl

reads_fresh_example : 0 ≡ (after tid 2 2 one_inside).mem.counter
reads_fresh_example =
    reads_fresh tid tid_positive tid_distinct 2 2 one_inside 0 2 0 (idle 1) one_inside_place
