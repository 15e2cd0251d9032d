-- ===== src/Prelude/Solo.antt =====
-- Turns of one thread while the others stand still.
use Prim.Native.Nat.{ℕ, zero, suc}
use mathlib.Core.Path.{◌≡◌, refl, ap, ◌∙◌}
use mathlib.Core.Logic.{◌≢◌}
use mathlib.Core.List.{List, [], ◌∷◌, ◌++◌}
use ccthread.Prelude.Tests.{update-cases}
use ccthread.Prelude.Interleave.{System, turn, run}

module _ {M P C : Type 0} (step : ℕ → C → M → P → M × P) where
  pub run-++ :
      (ts us : List (ℕ × C)) (s : System M P) → run step (ts ++ us) s ≡ run step us (run step ts s)
  unfolding run
  run-++ [] us s = refl
  run-++ (t ∷ ts) us s = run-++ ts us (turn step t s)

  module _ (c : C) (i : ℕ) where
    -- `k` turns of thread `i`.
    unfoldable pub solo : ℕ → List (ℕ × C)
    solo zero = []
    solo (suc k) = (i, c) ∷ solo k

    -- What they do to the memory and to the place of the thread.
    unfoldable pub local : ℕ → M → P → M × P
    local zero m p = (m, p)
    local (suc k) m p = local k (step i c m p).0 (step i c m p).1

    pub record Alone (k : ℕ) (s s' : System M P) : Type 0 where
      pub own : (s'.mem, s'.pc i) ≡ local k s.mem (s.pc i)
      pub others : (j : ℕ) → i ≢ j → s'.pc j ≡ s.pc j

    pub run-solo : (k : ℕ) (s : System M P) → Alone k s (run step (solo k) s)
    unfolding run solo local
    run-solo zero s = record { own = refl; others = λ j d. refl }
    run-solo (suc k) s =
        let s₁ = turn step (i, c) s in
        let rest = run-solo k s₁ in
        let here : s₁.pc i ≡ (step i c s.mem (s.pc i)).1 =
          update-cases (λ p. p ≡ (step i c s.mem (s.pc i)).1) s.pc i (step i c s.mem (s.pc i)).1 i
            (λ e. refl) (λ d. absurd (d refl)) in
        record {
          own = rest.own ∙ ap (local k s₁.mem) here;
          others = λ j d.
              rest.others j d
              ∙ update-cases (λ p. p ≡ s.pc j) s.pc i (step i c s.mem (s.pc i)).1 j
                  (λ e. absurd (d e)) (λ d'. refl);
        }
