-- ===== src/Prelude/Interleave.antt =====
-- Threads over shared memory, interleaved in any order. A thread is named by a number, its state is
-- a program counter with its live locals, and a turn of a schedule names the thread that makes its
-- next access and what its client chooses.
use Prim.Native.Nat.{ℕ, ◌+◌, ◌<◌}
use mathlib.Core.Path.{◌≡◌, refl}
use mathlib.Core.List.{List, [], ◌∷◌}
use native.Mathlib.Decide.{dec_lt}
use native.Mathlib.Omega.{arith}
use mathlib.Core.Bool.{true, false}
use ccthread.Prelude.Tests.{update, update-cases, update_same, ltb, if◌then◌else◌}
use ccthread.Prelude.Sums.{sum, sum-change}

pub record System (M P : Type 0) : Type 0 where
  pub mem : M
  pub pc : ℕ → P

module _ {M P C : Type 0} (step : ℕ → C → M → P → M × P) where
  abbrev pub turn : ℕ × C → System M P → System M P
  turn (i, c) s =
      let next = step i c s.mem (s.pc i) in record { mem = next.0; pc = update s.pc i next.1 }

  unfoldable pub run : List (ℕ × C) → System M P → System M P
  run [] s = s
  run (t ∷ ts) s = run ts (turn t s)

  -- What every turn keeps holds after every schedule.
  pub run-keeps :
      (Keeps : System M P → Type 0)
      → ((t : ℕ × C) (s : System M P) → Keeps s → Keeps (turn t s))
      → (ts : List (ℕ × C)) (s : System M P) → Keeps s
      → Keeps (run ts s)
  unfolding run
  run-keeps Keeps keep [] s k = k
  run-keeps Keeps keep (t ∷ ts) s k = run-keeps Keeps keep ts (turn t s) (keep t s k)

-- What every turn of the first `n` threads keeps holds after every schedule in which no other thread
-- moves.
pub run-bounded :
    {M P C : Type 0} (step : ℕ → C → M → P → M × P) (n : ℕ) (Keeps : M → (ℕ → P) → Type 0)
    → ((i : ℕ) (c : C) (m : M) (pc : ℕ → P)
        → i < n
        → Keeps m pc
        → Keeps (step i c m (pc i)).0 (update pc i (step i c m (pc i)).1))
    → (ts : List (ℕ × C)) (s : System M P) → Keeps s.mem s.pc
    → let s' = run (λ i c m p. if ltb i n then step i c m p else (m, p)) ts s in Keeps s'.mem s'.pc
run-bounded {M = M} {P = P} {C = C} step n Keeps keep ts s start =
    run-keeps (λ i c m p. if ltb i n then step i c m p else (m, p)) (λ s. Keeps s.mem s.pc)
      bounded-keeps ts s start
  where
    bounded-keeps :
        (t : ℕ × C) (s : System M P)
        → Keeps s.mem s.pc
        → let s' = turn (λ i c m p. if ltb i n then step i c m p else (m, p)) t s in
          Keeps s'.mem s'.pc
    bounded-keeps (i, c) s k = elim (dec_lt i n) [
      | yes b ↦ let e : ltb i n ≡ true = ground arith in rw e (keep i c s.mem s.pc b k)
      | no b ↦ let e : ltb i n ≡ false = ground arith in rw e (rw (update_same s.pc i) k)
    ]

-- What a move of thread `i` does to a sum over the places of the first `n` threads.
pub sum-update :
    {P : Type 0} (weight : P → ℕ) (pc : ℕ → P) (n i : ℕ) (p : P)
    → i < n
    → sum (λ j. weight (update pc i p j)) n + weight (pc i) ≡ sum (λ j. weight (pc j)) n + weight p
sum-update weight pc n i p b =
    let e : weight (update pc i p i) ≡ weight p =
      update-cases (λ q. weight q ≡ weight p) pc i p i (λ _. refl) (λ ne. absurd (ne refl)) in
    rw e at (
      sum-change (λ j. weight (update pc i p j)) (λ j. weight (pc j)) n i b
        (λ j ne.
          update-cases (λ q. weight q ≡ weight (pc j)) pc i p j (λ e'. absurd (ne e')) (λ _. refl)))
