-- ===== src/Examples/Readers/Tests.antt =====
-- Runs of examples/ccrwlock_basic.c, on a slim lock made of two counters.
use ccthread.Prelude.{ℕ, zero, suc, ◌<◌, ◌≡◌, refl, List, [], ◌∷◌, ◌++◌, arith, sum, run}
use ccthread.Rwlock.Threads.{Mode, reader, writer}
use ccthread.Rwlock.Threads
use ccthread.Rwlock.Samples.{counters, tid, tid_positive, tid_distinct}
use ccthread.Examples.Readers.{loading, finished, step, bounded_step, after}
use ccthread.Examples.Readers.Invariant.{quota}
use ccthread.Examples.Readers.Safety.{value_exact}

-- Thread 0 reads; the others write.
abbrev role : ℕ → Mode
role zero = reader
role (suc i) = writer

abbrev rounds : ℕ → ℕ
rounds i = 2

abbrev turns : ℕ → ℕ → List (ℕ × Unit {0})
turns zero i = []
turns (suc k) i = (i, tt) ∷ turns k i

-- Two writers and a reader, each of two rounds; thread 2 first finds the lock taken.
abbrev all_done : List (ℕ × Unit {0})
all_done = turns 5 1 ++ (turns 4 2 ++ (turns 25 1 ++ (turns 25 0 ++ turns 30 2)))

all_finished : (i : ℕ) → i < 3 → (after counters tid role rounds 3 all_done).pc i ≡ finished
unfolding run bounded_step step Threads.step
all_finished zero b = refl
all_finished (suc zero) b = refl
all_finished (suc (suc zero)) b = refl
all_finished (suc (suc (suc i))) b = absurd (omega arith)

value_exact_example :
    (after counters tid role rounds 3 all_done).mem.value ≡ sum (quota role rounds) 3
value_exact_example =
    value_exact counters tid role rounds 3 all_done tid_positive tid_distinct all_finished

all_counted : (after counters tid role rounds 3 all_done).mem.value ≡ 4
unfolding run bounded_step step Threads.step
all_counted = refl

-- The reader is inside, and a writer waits.
abbrev reading : List (ℕ × Unit {0})
reading = turns 2 0 ++ turns 4 1

reading_place : (after counters tid role rounds 3 reading).pc 0 ≡ loading reader 2
unfolding run bounded_step step Threads.step
reading_place = refl
