-- ===== src/Examples/LifecycleTests/Stress/Moves.antt =====
-- The moves of the main thread from one call to the next.
use ccthread.Prelude.{
  ℕ, ◌+◌, ◌≡◌, refl, sym, ap, ◌∙◌, Bool, true, false, Option, none, some, arith, update,
  update-cases, update_same, update-map, ℕ_discrete,
}
use mathlib.Core.Path.{fun_ext}
use mathlib.Core.Bool.{Bool-discrete}
use ccthread.Types.{Platform, ok}
use ccthread.Lifecycle.Race.{returned}
use ccthread.Examples.LifecycleTests.Stress.{
  Main, creating, joining, valuing, freeing, Slot, next_create, next_join, ret,
}
use ccthread.Examples.LifecycleTests.Stress.Slots.{IsSound, joined-ret}
use ccthread.Examples.LifecycleTests.Stress.Heap.{free-IsOwned}
use ccthread.Examples.LifecycleTests.Stress.Invariant.{
  Inv, past_create, past_join, past_free, InRange,
}

module _ (platform : Platform) (n : ℕ) (vals : ℕ → ℕ) {slots : ℕ → Slot} {ints : ℕ → Option ℕ} where
  -- The main thread goes on, and what it has created, joined and freed so far covers its new place.
  go_on :
      {main : Main} (main' : Main)
      → Inv platform n vals slots ints main
      → ((i : ℕ) → past_create n i main' ≡ false → past_create n i main ≡ false)
      → ((i : ℕ)
          → past_join n i main' ≡ true
          → (slots i).is_created ≡ true
          → (slots i).state.owner ≡ returned ok)
      → ((i : ℕ) → past_free n i main' ≡ past_free n i main)
      → InRange n main'
      → Inv platform n vals slots ints main'
  go_on main' inv c j f r = record {
    sound = inv.sound;
    heap = rw (fun_ext f) inv.heap;
    later = λ i p. inv.later i (c i p);
    joined = j;
    range = r;
  }

  pub joining-Inv :
      (k : ℕ)
      → Inv platform n vals slots ints (joining k)
      → ((slots k).is_created ≡ true → (slots k).state.owner ≡ returned ok)
      → Inv platform n vals slots ints (valuing k)
  joining-Inv k inv r =
      go_on (valuing k) inv (λ i p. p)
        (λ i p b. elim (ℕ_discrete k i) [
          | yes e ↦
              ap (λ j. (slots j).state.owner) (sym e) ∙ r (ap (λ j. (slots j).is_created) e ∙ b)
          | no d ↦ inv.joined i (ground arith) b
        ])
        (λ i. refl) inv.range

  pub valuing-Inv :
      (k : ℕ)
      → Inv platform n vals slots ints (valuing k)
      → Inv platform n vals slots ints (freeing k)
  valuing-Inv k inv = go_on (freeing k) inv (λ i p. p) inv.joined (λ i. refl) inv.range

  -- What the test reads is the address that the thread got.
  pub ret-address :
      (k : ℕ) (main : Main)
      → Inv platform n vals slots ints main
      → past_join n k main ≡ true
      → ret (slots k) ≡ (slots k).address
  ret-address k main inv p = elim (Bool-discrete (slots k).is_created true) [
    | yes b ↦ joined-ret platform (slots k) (inv.sound k) (inv.joined k p b)
    | no u ↦
        let (e, z) = (inv.sound k).unborn (ground arith) in
        ap (λ s. elim s.got [ none ↦ 0 | some p ↦ p ]) e ∙ sym z
  ]

  pub freeing-Inv :
      (k : ℕ)
      → Inv platform n vals slots ints (freeing k)
      → Inv platform n vals slots (update ints (ret (slots k)) none) (next_join n (k + 1))
  freeing-Inv k inv =
      let main' = next_join n (k + 1) in
      record {
        sound = inv.sound;
        heap = rw (ret-address k (freeing k) inv (ground arith)) (
            free-IsOwned vals inv.heap k (λ i. past_free n i main') (ground arith)
              (λ j d. ground (arith, inv.range)) (ground (arith, inv.range)));
        later = λ i p. inv.later i (ground arith);
        joined = λ i p b. inv.joined i (ground (arith, inv.range)) b;
        range = ground (arith, inv.range);
      }

  pub creating-Inv :
      (k : ℕ) (b : Bool)
      → Inv platform n vals slots ints (creating k)
      → Inv platform n vals
          (update slots k (record (slots k) { is_created = b }))
          ints
          (next_create n (k + 1))
  creating-Inv k b inv =
      let new = record (slots k) { is_created = b } in
      let main' = next_create n (k + 1) in
      record {
        sound = λ j.
            update-cases (IsSound platform) slots k new j
              (λ e. record {
                life = (inv.sound k).life;
                unborn = λ u. (inv.sound k).unborn (inv.later k (ground arith));
                unfailed = (inv.sound k).unfailed;
                early = (inv.sound k).early;
              })
              (λ d. inv.sound j);
        heap =
            rw (update-map (λ s. s.address) slots k new, update_same (λ j. (slots j).address) k)
              (let f : (λ i. past_free n i main') ≡ (λ i. false) = fun_ext (λ i. ground arith) in
                rw f inv.heap);
        later = λ j.
            update-cases (λ s. past_create n j main' ≡ false → s.is_created ≡ false) slots k new j
              (λ e p. absurd (ground (arith, e, inv.range)))
              (λ d p. inv.later j (ground (arith, inv.range)));
        joined = λ j p. absurd (ground arith);
        range = ground (arith, inv.range);
      }
