-- ===== src/Examples/Queue/Invariant.antt =====
-- What holds of the queue after every step of every thread.
use ccthread.Prelude.{
  ℕ, ◌+◌, ◌-◌, ◌≤◌, ◌<◌, ◌≡◌, refl, sym, ◌∙◌, ◌≢◌, List, arith, update, update-cases, sum, sum-zero,
  sum-update, le-sum, two-le-sum, run-bounded, dec_lt,
}
use ccthread.Examples.Ring.{first-zero}
use ccthread.Examples.Queue.{
  Cond, not_full, not_empty, Monitor, Call, Pc, idle, Shared, step, init, bounded_step, after,
}
use ccthread.Examples.Queue.Moves.{
  holding, sleeping, on_its_way, Fact, InOrder, Served, Moved, step-Moved, step-Served,
  step-InOrder, Fact-other,
}

module _ (monitor : Monitor) where
  open monitor use {
    holders, sleepers, signals, fresh_law, lock_law, unlock_law, sleep_law, wake_law, signal_law,
    apart_law, failure_law,
  }

  pub record Inv (n : ℕ) (m : Shared monitor) (pc : ℕ → Pc) : Type 0 where
    pub single : holders m.state ≤ 1
    pub held : holders m.state ≡ sum (λ i. holding (pc i)) n
    pub slept : (c : Cond) → sleepers c m.state ≡ sum (λ i. sleeping c (pc i)) n
    pub order : InOrder monitor m
    pub served : (c : Cond) → Served monitor c m (sum (λ i. on_its_way c (pc i)) n)
    pub far : (i : ℕ) → n ≤ i → pc i ≡ idle
    pub fact : (i : ℕ) → Fact monitor m (pc i)

  module _ {n : ℕ} {m : Shared monitor} {pc : ℕ → Pc} (inv : Inv n m pc) (i : ℕ) (k : Call)
      (b : i < n) where
    open inv use {single, held, slept, order, served, far, fact}

    abbrev next : Shared monitor × Pc
    next = step monitor k m (pc i)

    holding-le : holding (pc i) ≤ holders m.state
    holding-le = rw held (le-sum (λ j. holding (pc j)) n i b)

    sleeping-le : (c : Cond) → sleeping c (pc i) ≤ sleepers c m.state
    sleeping-le c = rw (slept c) (le-sum (λ j. sleeping c (pc j)) n i b)

    moved : Moved monitor m next.0 (pc i) next.1
    moved =
        step-Moved monitor k m (pc i) single holding-le (sleeping-le not_full)
          (sleeping-le not_empty) (fact i)

    -- At most one thread holds the mutex.
    one_holder : (j : ℕ) → i ≢ j → holding (pc i) + holding (pc j) ≤ 1
    one_holder j ne = elim (dec_lt j n) [
      | yes below ↦ omega (arith, single, held, two-le-sum (λ l. holding (pc l)) n i j b below ne)
      | no beyond ↦ rw (far j (omega arith)) (omega (arith, single, holding-le))
    ]

    move-Served :
        (c : Cond) → Served monitor c next.0 (sum (λ j. on_its_way c (update pc i next.1 j)) n)
    move-Served c h =
        let mine = le-sum (λ j. on_its_way c (pc j)) n i b in
        let others : ℕ = sum (λ j. on_its_way c (pc j)) n - on_its_way c (pc i) in
        let before : Served monitor c m (others + on_its_way c (pc i)) =
          λ l. omega (arith, served c l, mine) in
        omega (
          arith,
          mine,
          sum-update (on_its_way c) pc n i next.1 b,
          step-Served monitor c k m (pc i) others holding-le (sleeping-le not_full)
              (sleeping-le not_empty) (fact i) before h,
        )

    move-slept :
        (c : Cond) → sleepers c next.0.state ≡ sum (λ j. sleeping c (update pc i next.1 j)) n
    move-slept not_full =
        omega (arith, moved.full', slept not_full, sum-update (sleeping not_full) pc n i next.1 b)
    move-slept not_empty =
        omega
          (arith, moved.empty', slept not_empty, sum-update (sleeping not_empty) pc n i next.1 b)

    move-Inv : Inv n next.0 (update pc i next.1)
    move-Inv = record {
      single = moved.single';
      held = omega (arith, moved.held', held, sum-update holding pc n i next.1 b);
      slept = move-slept;
      order = step-InOrder monitor k m (pc i) (fact i) order;
      served = move-Served;
      far = λ j h.
          update-cases (λ p. p ≡ idle) pc i next.1 j (λ e. absurd (omega arith)) (λ _. far j h);
      fact = λ j.
          update-cases (λ p. Fact monitor next.0 p) pc i next.1 j (λ _. moved.fact')
            (λ ne. Fact-other monitor k m (pc i) (pc j) (one_holder j ne) (fact j));
    }

  slept-init : (c : Cond) (n : ℕ) → sleepers c monitor.fresh ≡ sum (λ i. sleeping c idle) n
  slept-init not_full n = (fresh_law not_full).1 ∙ sym (sum-zero (λ i. 0) n (λ j. refl))
  slept-init not_empty n = (fresh_law not_empty).1 ∙ sym (sum-zero (λ i. 0) n (λ j. refl))

  Inv-init : (n : ℕ) → Inv n (init monitor).mem (init monitor).pc
  Inv-init n = record {
    single = omega (arith, fresh_law not_full);
    held = (fresh_law not_full).0 ∙ sym (sum-zero (λ i. 0) n (λ j. refl));
    slept = λ c. slept-init c n;
    order = record {
      represents = record {
        counted = omega arith;
        fits = omega arith;
        head_at = omega arith;
        tail_at = omega arith;
        slots = λ j a b. absurd (omega arith);
      };
      taken = sym (first-zero (λ _. 0));
    };
    served = λ c h. absurd (omega (arith, fresh_law c));
    far = λ i h. refl;
    fact = λ i. tt;
  }

  pub after-Inv :
      (n : ℕ) (ts : List (ℕ × Call)) → Inv n (after monitor n ts).mem (after monitor n ts).pc
  unfolding bounded_step
  after-Inv n ts =
      run-bounded (λ i. step monitor) n (Inv n) (λ i k m pc b inv. move-Inv inv i k b) ts
        (init monitor) (Inv-init n)
