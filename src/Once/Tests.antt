-- ===== src/Once/Tests.antt =====
-- Runs of ccthread_once, and the theorems at inputs that meet their hypotheses.
use ccthread.Prelude.{ℕ, ◌≤◌, ◌≡◌, refl, List, [], ◌∷◌, run}
use ccthread.Once.Threads.{returned, restore, step, after}
use ccthread.Once.Safety.{exactly_once}

-- Thread 1 reads "in progress", thread 0 finishes, and thread 1 overwrites "done" for a moment.
abbrev clobbered : List (ℕ × Unit {0})
clobbered =
    (0, tt) ∷ (0, tt) ∷ (0, tt) ∷ (1, tt) ∷ (1, tt) ∷ (0, tt) ∷ (0, tt) ∷ (0, tt) ∷ (1, tt) ∷ []

clobbered_run :
    ((after clobbered).pc 1 ≡ restore)
    × ((after clobbered).mem ≡ record { once = 1; started = 1; finished = 1 })
unfolding run step
clobbered_run = (refl, refl)

exactly_once_example :
    ((after clobbered).mem.started ≤ 1)
    × ((i : ℕ)
        → (after clobbered).pc i ≡ returned
        → ((after clobbered).mem.started ≡ 1) × ((after clobbered).mem.finished ≡ 1))
exactly_once_example = exactly_once clobbered

abbrev done : List (ℕ × Unit {0})
done = (0, tt) ∷ (0, tt) ∷ (0, tt) ∷ (0, tt) ∷ (0, tt) ∷ (0, tt) ∷ []
