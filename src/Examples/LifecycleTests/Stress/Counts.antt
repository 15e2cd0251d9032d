-- ===== src/Examples/LifecycleTests/Stress/Counts.antt =====
-- The counters of the tests that join: how many tests were made, and who is to blame for a failure.
use ccthread.Prelude.{
  ℕ, ◌+◌, ◌*◌, ◌<◌, ◌≡◌, refl, ◌⊎◌, Bool, true, false, arith, update, update-cases, not, if-cases,
}
use ccthread.Types.{Platform}
use ccthread.Lifecycle.Race.{ChildPc, work, ended, State, child_step}
use ccthread.Examples.LifecycleTests.Stress.{
  Main, creating, joining, valuing, freeing, finished, Slot, Shared, config, is_work, test,
  worker_step,
}
use ccthread.Examples.LifecycleTests.Stress.Invariant.{Inv, past_create, work-Inv, other-Inv}

-- The tests made so far.
abbrev pub made : ℕ → Main → ℕ
made n (creating k) = k
made n (joining k) = n + 2 * k
made n (valuing k) = n + 2 * k + 1
made n (freeing k) = n + 2 * k + 2
made n finished = 3 * n

-- Thread `i` is missing, or `malloc` gave it NULL.
abbrev pub IsBlamed : ℕ → (ℕ → Slot) → Main → ℕ → Type 0
IsBlamed n slots main i =
    (i < n)
    × (past_create n i main ≡ true)
    × (((slots i).is_created ≡ false) ⊎ (((slots i).address ≡ 0) × ((slots i).state.child ≡ ended)))

module _ (platform : Platform) (n : ℕ) (vals : ℕ → ℕ) where
  pub record Whole (s : Shared) : Type 0 where
    pub inv : Inv platform n vals s.slots s.ints s.main
    pub total : s.tests_pass + s.tests_fail ≡ made n s.main
    pub blame : 0 < s.tests_fail → (i : ℕ) × IsBlamed n s.slots s.main i

  -- A test that is made at a place, and whose failure has a cause.
  pub test-Whole :
      (b : Bool) (s : Shared)
      → Inv platform n vals s.slots s.ints s.main
      → s.tests_pass + s.tests_fail + 1 ≡ made n s.main
      → (0 < s.tests_fail → (i : ℕ) × IsBlamed n s.slots s.main i)
      → (b ≡ false → (i : ℕ) × IsBlamed n s.slots s.main i)
      → Whole (test b s)
  test-Whole true s inv t h c = record { inv = inv; total = omega arith; blame = h }
  test-Whole false s inv t h c = record { inv = inv; total = omega arith; blame = λ _. c refl }

  -- A slot that changes keeps the blame.
  pub blame_stays :
      (slots : ℕ → Slot) (main : Main) (i : ℕ) (slot : Slot)
      → slot.is_created ≡ (slots i).is_created
      → ((slots i).state.child ≡ ended
          → (slot.state.child ≡ ended) × (slot.address ≡ (slots i).address))
      → (j : ℕ) × IsBlamed n slots main j
      → (j : ℕ) × IsBlamed n (update slots i slot) main j
  blame_stays slots main i slot c e (j, (b, p, h)) = (
    j,
    (
      b,
      p,
      update-cases (λ s. (s.is_created ≡ false) ⊎ ((s.address ≡ 0) × (s.state.child ≡ ended))) slots
          i slot j (λ same. ground (arith, h, e, c, same)) (λ d. h),
    ),
  )

  child_ended :
      (a : ℕ) (p : ChildPc) (s : State)
      → s.child ≡ p
      → p ≡ ended
      → (child_step (config platform a) p s).child ≡ ended
  unfolding child_step
  child_ended a ended s e h = e
  child_ended a p s e h = absurd (ground arith)

  work_not_ended : (p : ChildPc) → is_work p ≡ true → p ≡ work
  work_not_ended work e = refl
  work_not_ended p e = absurd (ground arith)

  pub worker-Whole :
      (i choice : ℕ) (s : Shared) → Whole s → Whole (worker_step platform n vals i choice s)
  unfolding worker_step
  worker-Whole i choice s w =
      if-cases (not (s.slots i).is_created) Whole (λ _. w)
        (λ u.
          let born : (s.slots i).is_created ≡ true = ground arith in
          if-cases (is_work (s.slots i).state.child) Whole
            (λ at_work.
              let c = work_not_ended (s.slots i).state.child at_work in
              record {
                inv = work-Inv platform n vals w.inv i born choice c;
                total = w.total;
                blame = λ f.
                    blame_stays s.slots s.main i _ refl (λ e. absurd (ground arith)) (w.blame f);
              })
            (λ other. record {
              inv = other-Inv platform n vals w.inv i born other;
              total = w.total;
              blame = λ f.
                  blame_stays s.slots s.main i _ refl
                    (λ e. (
                      child_ended (s.slots i).address (s.slots i).state.child (s.slots i).state refl
                          e,
                      refl,
                    ))
                    (w.blame f);
            }))
