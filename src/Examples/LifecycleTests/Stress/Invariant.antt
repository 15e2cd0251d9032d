-- ===== src/Examples/LifecycleTests/Stress/Invariant.antt =====
-- The threads, their integers and the place of the main thread: what holds at the start and is kept by
-- every access.
use ccthread.Prelude.{
  ℕ, ◌<◌, ◌≡◌, refl, sym, ap, ◌∙◌, Bool, true, false, Option, some, arith, ltb, leb, ◌==◌,
  if◌then◌else◌, update, update-cases, update_same, update-map,
}
use ccthread.Types.{Platform, ok}
use ccthread.Lifecycle.Race.{work, returned, child_step, owner_step}
use ccthread.Lifecycle.Joined.{has_value}
use ccthread.Examples.LifecycleTests.Stress.{
  Main, creating, joining, valuing, freeing, finished, Slot, config, is_work, malloc,
}
use ccthread.Examples.LifecycleTests.Stress.Slots.{
  IsSound, work-IsSound, child-IsSound, owner-IsSound, child_keeps_owner, returned_stays,
  joined-ended,
}
use mathlib.Core.Bool.{Bool-discrete}
use ccthread.Examples.LifecycleTests.Stress.Heap.{IsOwned, malloc-IsOwned}

-- The main thread has tried to create thread `i`; has joined it; has freed its integer.
abbrev pub past_create : ℕ → ℕ → Main → Bool
past_create n i (creating k) = ltb i k
past_create n i _ = ltb i n

abbrev pub past_join : ℕ → ℕ → Main → Bool
past_join n i (creating k) = false
past_join n i (joining k) = ltb i k
past_join n i (valuing k) = leb i k
past_join n i (freeing k) = leb i k
past_join n i finished = ltb i n

abbrev pub past_free : ℕ → ℕ → Main → Bool
past_free n i (creating k) = false
past_free n i (joining k) = ltb i k
past_free n i (valuing k) = ltb i k
past_free n i (freeing k) = ltb i k
past_free n i finished = ltb i n

abbrev pub InRange : ℕ → Main → Type 0
InRange n (creating k) = k < n
InRange n (joining k) = k < n
InRange n (valuing k) = k < n
InRange n (freeing k) = k < n
InRange n finished = Unit {0}

module _ (platform : Platform) (n : ℕ) (vals : ℕ → ℕ) where
  pub record Inv (slots : ℕ → Slot) (ints : ℕ → Option ℕ) (main : Main) : Type 0 where
    pub sound : (i : ℕ) → IsSound platform (slots i)
    pub heap : IsOwned vals (λ i. (slots i).address) (λ i. past_free n i main) ints
    pub later : (i : ℕ) → past_create n i main ≡ false → (slots i).is_created ≡ false
    pub joined :
        (i : ℕ)
        → past_join n i main ≡ true
        → (slots i).is_created ≡ true
        → (slots i).state.owner ≡ returned ok
    pub range : InRange n main

  -- A turn that changes the slot of thread `i` and keeps its creation and a join that is done.
  slot-Inv :
      {slots : ℕ → Slot} {ints ints' : ℕ → Option ℕ} {main : Main} (i : ℕ) (slot : Slot)
      → Inv slots ints main
      → slot.is_created ≡ (slots i).is_created
      → IsSound platform slot
      → ((slots i).state.owner ≡ returned ok → slot.state.owner ≡ returned ok)
      → IsOwned vals
          (update (λ j. (slots j).address) i slot.address)
          (λ j. past_free n j main)
          ints'
      → Inv (update slots i slot) ints' main
  slot-Inv {slots = slots} {main = main} i slot inv c v r o = record {
    sound = λ j. update-cases (IsSound platform) slots i slot j (λ e. v) (λ d. inv.sound j);
    heap = rw (update-map (λ s. s.address) slots i slot) o;
    later = λ j.
        update-cases (λ s. past_create n j main ≡ false → s.is_created ≡ false) slots i slot j
          (λ e p. c ∙ inv.later i (ap (λ k. past_create n k main) e ∙ p)) (λ d. inv.later j);
    joined = λ j.
        update-cases
          (λ s. past_join n j main ≡ true → s.is_created ≡ true → s.state.owner ≡ returned ok) slots
          i slot j (λ e p q. r (inv.joined i (ap (λ k. past_join n k main) e ∙ p) (sym c ∙ q)))
          (λ d. inv.joined j);
    range = inv.range;
  }

  free-join : (i : ℕ) (main : Main) → past_free n i main ≡ true → past_join n i main ≡ true
  free-join i main h = ground arith

  module _ {slots : ℕ → Slot} {ints : ℕ → Option ℕ} {main : Main} (inv : Inv slots ints main)
      (i : ℕ) (born : (slots i).is_created ≡ true) where
    open inv use {sound, heap, joined}

    unfreed : (slots i).state.child ≡ work → past_free n i main ≡ false
    unfreed w = elim (Bool-discrete (past_free n i main) true) [
      | yes f ↦
          let e = joined-ended platform (slots i) (sound i) (joined i (free-join i main f) born) in
          absurd (ground arith)
      | no f ↦ ground arith
    ]

    -- The thread's function returns.
    pub work-Inv :
        (choice : ℕ)
        → (slots i).state.child ≡ work
        → let p = malloc choice ints in
          Inv
            (update slots i (record (slots i) {
              state = child_step (config platform p) work (slots i).state;
              address = p;
            }))
            (if p == 0 then ints else update ints p (some (vals i)))
            main
    work-Inv choice w =
        let p = malloc choice ints in
        let fresh : (slots i).address ≡ 0 = (sound i).early (ap has_value w) in
        slot-Inv i
          (record (slots i) {
            state = child_step (config platform p) work (slots i).state;
            address = p;
          })
          inv refl (work-IsSound platform p (slots i) born w (sound i))
          (λ e. child_keeps_owner platform p work (slots i).state ∙ e)
          (malloc-IsOwned vals heap i p fresh (unfreed w) (λ d. ground arith))

    -- Another access of the thread.
    pub other-Inv :
        is_work (slots i).state.child ≡ false
        → Inv
            (update slots i (record (slots i) {
              state =
                  child_step
                    (config platform (slots i).address)
                    (slots i).state.child
                    (slots i).state;
            }))
            ints
            main
    other-Inv w =
        slot-Inv i
          (record (slots i) {
            state =
                child_step (config platform (slots i).address) (slots i).state.child
                  (slots i).state;
          })
          inv refl (child-IsSound platform (slots i) born w (sound i))
          (λ e.
            child_keeps_owner platform (slots i).address (slots i).state.child (slots i).state ∙ e)
          (rw (update_same (λ j. (slots j).address) i) heap)

    -- An access of ccthread_join.
    pub owner-Inv :
        Inv
          (update slots i (record (slots i) {
            state =
                owner_step
                  (config platform (slots i).address)
                  (slots i).state.owner
                  (slots i).state;
          }))
          ints
          main
    owner-Inv =
        slot-Inv i
          (record (slots i) {
            state =
                owner_step (config platform (slots i).address) (slots i).state.owner
                  (slots i).state;
          })
          inv refl (owner-IsSound platform (slots i) born (sound i))
          (λ e.
            returned_stays platform (slots i).address (slots i).state.owner (slots i).state refl e)
          (rw (update_same (λ j. (slots j).address) i) heap)
