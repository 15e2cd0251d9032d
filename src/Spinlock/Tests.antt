-- ===== src/Spinlock/Tests.antt =====
-- Runs of the spinlock on concrete inputs, and the theorems at inputs that meet their hypotheses.
use ccthread.Prelude.{
  ℕ, zero, suc, ◌+◌, ◌*◌, ◌^◌, inr, ◌≤◌, ◌<◌, ◌≡◌, refl, ◌≢◌, some, none, List, [], ◌∷◌, arith, run,
}
use ccthread.Types.{success, error, plain, posix}
use ccthread.Atomic.{gcc, unknown}
use ccthread.Spinlock.Threads.{Spin, zeroed, idle, Choice, lock, unlock, step, after}
use ccthread.Spinlock.Collision.{id_of, one_then_other, truncated_ids_collide}
use ccthread.Spinlock.Safety.{mutual_exclusion, recursion_exact}
use ccthread.Spinlock.Calls.{trylock, spin_until, ccspinlock_create}
use ccthread.Spinlock.Laws.{solo, solo-trylock, returned, trylock-taken, unknown_never_locks}

abbrev tid : ℕ → ℕ
tid i = 100 + i

tid_positive : (i : ℕ) → tid i ≢ 0
tid_positive i e = omega arith

tid_distinct : (i j : ℕ) → tid i ≡ tid j → i ≡ j
tid_distinct i j e = omega arith

-- Thread 0 takes the lock twice; thread 1 tries in between and fails.
abbrev contended : List (ℕ × Choice)
contended =
    (0, lock)
    ∷ (0, lock)
    ∷ (1, lock)
    ∷ (1, lock)
    ∷ (0, lock)
    ∷ (1, lock)
    ∷ (0, lock)
    ∷ (0, lock)
    ∷ (0, lock)
    ∷ (0, lock)
    ∷ (0, lock)
    ∷ (0, lock)
    ∷ (0, lock)
    ∷ []

contended_run :
    ((after tid contended).pc 0 ≡ idle 2)
    × ((after tid contended).pc 1 ≡ idle 0)
    × ((after tid contended).mem ≡ record { flag = 1; owner_tid = 100; recursion = 2 })
unfolding run step
contended_run = (refl, refl, refl)

mutual_exclusion_example : ◌≡◌ {A = ℕ} 0 0
mutual_exclusion_example =
    mutual_exclusion tid tid_positive tid_distinct contended 0 0 2 2 contended_run.0 contended_run.0
      (omega arith) (omega arith)

recursion_exact_example :
    ((after tid contended).mem.flag ≡ 1)
    × ((after tid contended).mem.owner_tid ≡ 100)
    × ((after tid contended).mem.recursion ≡ 2)
recursion_exact_example =
    recursion_exact tid tid_positive tid_distinct contended 0 2 contended_run.0 (omega arith)

-- Thread 0 takes the lock and releases it.
abbrev released : List (ℕ × Choice)
released =
    (0, lock)
    ∷ (0, lock)
    ∷ (0, lock)
    ∷ (0, lock)
    ∷ (0, lock)
    ∷ (0, unlock)
    ∷ (0, unlock)
    ∷ (0, unlock)
    ∷ (0, unlock)
    ∷ (0, unlock)
    ∷ []

released_quiet : (i : ℕ) → (after tid released).pc i ≡ idle 0
unfolding run step
released_quiet zero = refl
released_quiet (suc i) = ground arith

abbrev taken : Spin
taken = record { flag = 1; owner_tid = 7; recursion = 1 }

solo-trylock_example :
    (n : ℕ) × (0 < n) × (n ≤ 6) × (solo n 7 lock (zeroed, idle 0) ≡ (taken, returned 0 success))
unfolding trylock
solo-trylock_example = solo-trylock gcc 7 0 zeroed (λ e. cc) refl

trylock-taken_example :
    (trylock gcc 8 taken ≡ some (error, taken))
    × (trylock gcc 7 taken ≡ some (success, record taken { recursion = 2 }))
unfolding trylock ccspinlock_create
trylock-taken_example =
    trylock-taken gcc plain 7 8 {m = zeroed} (λ e. cc) (λ e. omega arith) (λ e. omega arith) refl
      refl

unknown_never_locks_example :
    (trylock unknown 7 zeroed ≡ some (error, record zeroed { flag = 1 }))
    × (spin_until 9 unknown 7 zeroed ≡ none)
unknown_never_locks_example = unknown_never_locks 7 9 zeroed refl

-- The handles 5 and 2 ^ 32 + 5.
abbrev handles : ℕ → ℕ
handles i = i * 2 ^ 32 + 5

truncated_ids_collide_example :
    let s = after (λ i. id_of posix (handles i)) one_then_other in
    (s.pc 0 ≡ idle 1) × (s.pc 1 ≡ idle 1)
truncated_ids_collide_example =
    truncated_ids_collide posix handles (inr (inr refl)) (λ e. omega arith) refl
