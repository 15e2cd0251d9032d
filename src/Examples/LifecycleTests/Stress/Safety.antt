-- ===== src/Examples/LifecycleTests/Stress/Safety.antt =====
-- The tests that join, when the main thread has made them all: their results, and what is left in memory.
use ccthread.Prelude.{
  ℕ, ◌+◌, ◌*◌, ◌<◌, ◌≡◌, refl, sym, ap, ◌∙◌, ◌⊎◌, true, false, Option, none, some, List, arith,
}
use mathlib.Core.Bool.{Bool-discrete, true≢false}
use ccthread.Types.{Platform, ok}
use ccthread.Lifecycle.Race.{ended, returned}
use ccthread.Examples.LifecycleTests.Stress.{finished, Shared, Move, after}
use ccthread.Examples.LifecycleTests.Stress.Slots.{joined-freed}
use ccthread.Examples.LifecycleTests.Stress.Invariant.{Inv, past_create}
use ccthread.Examples.LifecycleTests.Stress.Results.{after-Whole}

module _ (platform : Platform) (n : ℕ) (vals : ℕ → ℕ) (ts : List Move)
    (done : (after platform n vals ts).main ≡ finished) where
  abbrev s : Shared
  s = after platform n vals ts

  inv : Inv platform n vals s.slots s.ints finished
  inv = rw done at (after-Whole platform n vals ts).inv

  -- Whatever the order of the accesses of the `n` threads and of the main thread: when the main thread
  -- has ended, it has made three tests for each thread, and if one of them failed there is a thread
  -- that ccthread_create did not create, or that ended with NULL from malloc. The joins of the system
  -- succeed.
  pub joins_pass :
      (s.tests_pass + s.tests_fail ≡ 3 * n)
      × (0 < s.tests_fail
          → (i : ℕ) × (i < n)
            × (((s.slots i).is_created ≡ false)
                ⊎ (((s.slots i).address ≡ 0) × ((s.slots i).state.child ≡ ended))))
  joins_pass =
      let w = after-Whole platform n vals ts in
      (ground (arith, w.total, done), λ f. let (i, (l, p, h)) = w.blame f in (i, l, h))

  has_joined : (i : ℕ) → (s.slots i).is_created ≡ true → (s.slots i).state.owner ≡ returned ok
  has_joined i b = elim (Bool-discrete (past_create n i finished) true) [
    | yes p ↦ inv.joined i p b
    | no p ↦ absurd (true≢false (sym b ∙ inv.later i (ground arith)))
  ]

  unused : (a : ℕ) (content : Option ℕ) → s.ints a ≡ content → content ≡ none
  unused a none e = refl
  unused a (some v) e =
      let (i, g, p) = inv.heap.owned a v e in
      let (b, z) = (inv.sound i).unborn (inv.later i g) in
      sym e ∙ ap s.ints (sym p ∙ z) ∙ inv.heap.null

  -- When the main thread has ended: every thread that was created has ended, its struct was freed
  -- exactly once and never used after that, and no integer that a thread allocated is left.
  pub joins_free_all :
      ((i : ℕ)
        → (s.slots i).is_created ≡ true
        → ((s.slots i).state.child ≡ ended)
          × ((s.slots i).state.frees ≡ 1)
          × ((s.slots i).state.used_free ≡ false))
      × ((a : ℕ) → s.ints a ≡ none)
  joins_free_all = (
    λ i b. joined-freed platform (s.slots i) (inv.sound i) (has_joined i b),
    λ a. unused a (s.ints a) refl,
  )
