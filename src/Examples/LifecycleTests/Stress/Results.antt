-- ===== src/Examples/LifecycleTests/Stress/Results.antt =====
-- The moves of the main thread and the counters of the tests that join.
use ccthread.Prelude.{
  ℕ, ◌+◌, ◌*◌, ◌<◌, ◌≡◌, refl, ap, ◌∙◌, ◌≢◌, ◌⊎◌, inl, inr, Bool, true, false, Option, none, some,
  List, [], ◌∷◌, arith, update, update-cases, ℕ_discrete, if-cases,
}
use mathlib.Core.Bool.{Bool-discrete}
use ccthread.Types.{Platform, Code, ok, failed}
use ccthread.Lifecycle.Race.{ended, OwnerPc, returned, owner_step}
use ccthread.Examples.LifecycleTests.Stress.{
  Main, creating, joining, valuing, freeing, finished, Slot, Shared, Move, worker_turn, main_turn,
  config, code_of, ret, holds, next_create, main_step, step, init, run, after,
}
use ccthread.Examples.LifecycleTests.Stress.Slots.{
  owner_keeps_child, joined-ended, owner-IsSound, empty-IsSound,
}
use ccthread.Examples.LifecycleTests.Stress.Heap.{none-IsOwned}
use ccthread.Examples.LifecycleTests.Stress.Invariant.{Inv, past_join, past_free, owner-Inv}
use ccthread.Examples.LifecycleTests.Stress.Moves.{
  creating-Inv, joining-Inv, valuing-Inv, freeing-Inv, ret-address,
}
use ccthread.Examples.LifecycleTests.Stress.Counts.{
  made, IsBlamed, Whole, test-Whole, blame_stays, worker-Whole,
}

module _ (platform : Platform) (n : ℕ) (vals : ℕ → ℕ) where
  -- A test of the value fails only in a thread that is missing or got no memory.
  holds_or_blamed :
      (k : ℕ) (slots : ℕ → Slot) (ints : ℕ → Option ℕ)
      → Inv platform n vals slots ints (valuing k)
      → holds ints (ret (slots k)) (vals k) ≡ false
      → ((slots k).is_created ≡ false) ⊎ (((slots k).address ≡ 0) × ((slots k).state.child ≡ ended))
  holds_or_blamed k slots ints v f =
      let here : past_join n k (valuing k) ≡ true = ground arith in
      elim (Bool-discrete (slots k).is_created true) [
        | no u ↦ inl (ground arith)
        | yes b ↦ elim (ℕ_discrete (slots k).address 0) [
          | yes z ↦ inr (z, joined-ended platform (slots k) (v.sound k) (v.joined k here b))
          | no d ↦
              let o = v.heap.owns k d (ground arith) in
              let r = ret-address platform n vals k (valuing k) v here in
              let f' : holds ints (slots k).address (vals k) ≡ false = rw r at f in
              absurd (ground (arith, o, f', d))
        ]
      ]

  -- ccthread_join goes on or has succeeded.
  code-cases :
      (p : OwnerPc) (x : Shared) (y : Code → Shared)
      → p ≢ returned failed
      → (Whole platform n vals) x
      → (p ≡ returned ok → (Whole platform n vals) (y ok))
      → (Whole platform n vals) (elim (code_of p) [ none ↦ x | some c ↦ y c ])
  code-cases (returned ok) x y u a b = b refl
  code-cases (returned failed) x y u a b = absurd (u refl)
  code-cases p x y u a b = a

  module _ (s : Shared) (w : (Whole platform n vals) s) where
    open w use {inv, total, blame}

    creating-Whole :
        (k : ℕ) (b : Bool)
        → s.main ≡ creating k
        → (Whole platform n vals) (main_step platform n vals b (creating k) s)
    unfolding main_step
    creating-Whole k b e =
        let inv' : Inv platform n vals s.slots s.ints (creating k) = rw e at inv in
        let blame' : 0 < s.tests_fail → (i : ℕ) × IsBlamed n s.slots (creating k) i =
          rw e at blame in
        let total' : s.tests_pass + s.tests_fail ≡ k = total ∙ ap (made n) e in
        let new = record (s.slots k) { is_created = b } in
        let short : k < n = inv'.range in
        test-Whole platform n vals b _ (creating-Inv platform n vals k b inv')
          (ground (arith, total', short))
          (λ f.
            let (j, (l, p, h)) = blame' f in
            (
              j,
              (
                l,
                ground (arith, p, l, short),
                update-cases
                    (λ s. (s.is_created ≡ false) ⊎ ((s.address ≡ 0) × (s.state.child ≡ ended)))
                    s.slots k new j (λ same. absurd (ground (arith, p, same))) (λ d. h),
              ),
            ))
          (λ f. (k, (short, ground (arith, short), inl (ground (arith, f)))))

    joining-Whole :
        (k : ℕ) (b : Bool)
        → s.main ≡ joining k
        → (Whole platform n vals) (main_step platform n vals b (joining k) s)
    unfolding main_step
    joining-Whole k b e =
        let inv' : Inv platform n vals s.slots s.ints (joining k) = rw e at inv in
        let blame' : 0 < s.tests_fail → (i : ℕ) × IsBlamed n s.slots (joining k) i =
          rw e at blame in
        let total' : s.tests_pass + s.tests_fail ≡ n + 2 * k = total ∙ ap (made n) e in
        let slot = s.slots k in
        let state = owner_step (config platform slot.address) slot.state.owner slot.state in
        let slots' = update s.slots k (record slot { state = state }) in
        let same = owner_keeps_child platform slot.address slot.state.owner slot.state in
        if-cases slot.is_created (Whole platform n vals)
          (λ born.
            code-cases state.owner _ _ (owner-IsSound platform slot born (inv.sound k)).unfailed
              (record {
                inv = owner-Inv platform n vals inv k born;
                total = total;
                blame = λ f.
                    blame_stays platform n vals s.slots s.main k _ refl (λ z. (same ∙ z, refl))
                      (blame f);
              })
              (λ done.
                test-Whole platform n vals true (record s { slots = slots'; main = valuing k })
                  (joining-Inv platform n vals k (owner-Inv platform n vals inv' k born) (λ _.
                    update-cases (λ x. x.state.owner ≡ returned ok) s.slots k _ k (λ z. done)
                      (λ d. absurd (d refl))))
                  (omega (arith, total'))
                  (λ f.
                    blame_stays platform n vals s.slots (valuing k) k _ refl (λ z. (same ∙ z, refl))
                      (blame' f))
                  (λ f. absurd (ground arith))))
          (λ unborn.
            test-Whole platform n vals false (record s { main = valuing k })
              (joining-Inv platform n vals k inv' (λ b. absurd (ground arith)))
              (omega (arith, total')) blame'
              (λ f. (k, (inv'.range, ground (arith, inv'.range), inl unborn))))

    valuing-Whole :
        (k : ℕ) (b : Bool)
        → s.main ≡ valuing k
        → (Whole platform n vals) (main_step platform n vals b (valuing k) s)
    unfolding main_step
    valuing-Whole k b e =
        let inv' : Inv platform n vals s.slots s.ints (valuing k) = rw e at inv in
        let blame' : 0 < s.tests_fail → (i : ℕ) × IsBlamed n s.slots (valuing k) i =
          rw e at blame in
        let total' : s.tests_pass + s.tests_fail ≡ n + 2 * k + 1 = total ∙ ap (made n) e in
        test-Whole platform n vals (holds s.ints (ret (s.slots k)) (vals k)) _
          (valuing-Inv platform n vals k inv') (omega (arith, total')) blame'
          (λ f.
            (k, (inv'.range, ground (arith, inv'.range), holds_or_blamed k s.slots s.ints inv' f)))

    freeing-Whole :
        (k : ℕ) (b : Bool)
        → s.main ≡ freeing k
        → (Whole platform n vals) (main_step platform n vals b (freeing k) s)
    unfolding main_step
    freeing-Whole k b e =
        let inv' : Inv platform n vals s.slots s.ints (freeing k) = rw e at inv in
        let blame' : 0 < s.tests_fail → (i : ℕ) × IsBlamed n s.slots (freeing k) i =
          rw e at blame in
        let total' : s.tests_pass + s.tests_fail ≡ n + 2 * k + 2 = total ∙ ap (made n) e in
        let short : k < n = inv'.range in
        record {
          inv = freeing-Inv platform n vals k inv';
          total = ground (arith, total', short);
          blame = λ f. let (j, (l, p, h)) = blame' f in (j, (l, ground (arith, l), h));
        }

  main-Whole :
      (b : Bool) (q : Main) (s : Shared)
      → s.main ≡ q
      → (Whole platform n vals) s
      → (Whole platform n vals) (main_step platform n vals b q s)
  unfolding main_step
  main-Whole b (creating k) s e w = creating-Whole s w k b e
  main-Whole b (joining k) s e w = joining-Whole s w k b e
  main-Whole b (valuing k) s e w = valuing-Whole s w k b e
  main-Whole b (freeing k) s e w = freeing-Whole s w k b e
  main-Whole b finished s e w = w

  step-Whole :
      (t : Move) (s : Shared)
      → (Whole platform n vals) s
      → (Whole platform n vals) (step platform n vals t s)
  unfolding step
  step-Whole (worker_turn i choice) s w = worker-Whole platform n vals i choice s w
  step-Whole (main_turn b) s w = main-Whole b s.main s refl w

  init-Whole : (Whole platform n vals) (init platform n vals)
  init-Whole = record {
    inv = record {
      sound = λ i. empty-IsSound platform false;
      heap = none-IsOwned vals (λ i. past_free n i (next_create n 0));
      later = λ i e. refl;
      joined = λ i e b. absurd (ground arith);
      range = ground arith;
    };
    total = ground arith;
    blame = λ f. absurd (omega arith);
  }

  run-Whole :
      (ts : List Move) (s : Shared)
      → (Whole platform n vals) s
      → (Whole platform n vals) (run platform n vals ts s)
  unfolding run
  run-Whole [] s w = w
  run-Whole (t ∷ ts) s w = run-Whole ts (step platform n vals t s) (step-Whole t s w)

  pub after-Whole : (ts : List Move) → (Whole platform n vals) (after platform n vals ts)
  after-Whole ts = run-Whole ts (init platform n vals) init-Whole
