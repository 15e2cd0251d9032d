-- ===== src/Rwlock/Tests.antt =====
-- Runs of ccrwlock.c, and the theorems at inputs that meet their hypotheses.
use ccthread.Prelude.{ℕ, zero, suc, ◌≡◌, refl, List, [], ◌∷◌, ◌++◌, arith, run}
use ccthread.Rwlock.Samples.{counters, tid, tid_positive, tid_distinct}
use ccthread.Rwlock.Threads.{writer, idle, inside, Choice, read, write, step, bounded_step, after}
use ccthread.Rwlock.Safety.{writer_alone}

-- Thread 0 writes; thread 1 tries to read and fails.
abbrev writing : List (ℕ × Choice)
writing = (0, write) ∷ (0, write) ∷ (1, read) ∷ (1, read) ∷ (0, write) ∷ []

writing_run :
    ((after counters tid 2 writing).pc 0 ≡ inside writer)
    × ((after counters tid 2 writing).pc 1 ≡ idle)
    × ((after counters tid 2 writing).mem.writer_tid ≡ 100)
unfolding run step bounded_step
writing_run = (refl, refl, refl)

writer_alone_example : ◌≡◌ {A = ℕ} 0 0
writer_alone_example =
    writer_alone counters tid tid_positive tid_distinct 2 writing 0 0 writer (omega arith)
      (omega arith) writing_run.0 writing_run.0

-- Thread 0 writes and is through with its unlock.
abbrev wrote : List (ℕ × Choice)
wrote = writing ++ (0, write) ∷ (0, write) ∷ (0, write) ∷ (0, write) ∷ (0, write) ∷ []

wrote_quiet : (i : ℕ) → (after counters tid 2 wrote).pc i ≡ idle
unfolding run step bounded_step
wrote_quiet zero = refl
wrote_quiet (suc zero) = refl
wrote_quiet (suc (suc i)) = ground arith
