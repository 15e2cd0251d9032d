-- ===== src/Examples/OnceTests/Concurrent/Waking.antt =====
-- How test_concurrent goes on from its own call of ccthread_once, and how a thread that it joins ends.
use ccthread.Prelude.{
  ℕ, ◌≡◌, refl, sym, ap, ◌∙◌, ◌≢◌, ◌⊎◌, inr, Bool, true, false, List, [], ◌++◌, arith, System, run,
  run-keeps, run-++, solo, local, run-solo, ℕ_discrete,
}
use mathlib.Core.Bool.{true≢false}
use ccthread.Once.Threads.{Pc, idle}
use ccthread.Once.Invariant
use ccthread.Once.Invariant.{wakes}
use ccthread.Examples.OnceTests.Concurrent.{
  Place, ended, joining, comparing, again, comparing_again, answered, Shared, step,
}
use ccthread.Examples.OnceTests.Concurrent.Moves.{once_place, At}
use ccthread.Examples.OnceTests.Concurrent.Invariant.{Inv, move}
use ccthread.Examples.OnceTests.Concurrent.Local.{
  local-worker, local-again_done, local-again_wakes, local-wakes,
}

module _ (n prev : ℕ) where
  -- A continuation in which the test returns 1.
  abbrev pub CanPass : System Shared Place → Type 0
  CanPass s = (us : List (ℕ × Bool)) × ((run (step n prev) us s).pc n ≡ answered true)

  -- The state after `k` turns of thread `i`.
  abbrev pub alone : ℕ → ℕ → System Shared Place → System Shared Place
  alone i k s = run (step n prev) (solo (step n prev) true i k) s

  pub via :
      (us : List (ℕ × Bool)) (s : System Shared Place)
      → CanPass (run (step n prev) us s)
      → CanPass s
  via us s (vs, e) = (us ++ vs, ap (λ s. s.pc n) (run-++ (step n prev) us vs s) ∙ e)

  pub keep :
      (us : List (ℕ × Bool)) (s : System Shared Place)
      → Inv n prev s.mem s.pc
      → Inv n prev (run (step n prev) us s).mem (run (step n prev) us s).pc
  keep = run-keeps (step n prev) (λ s. Inv n prev s.mem s.pc) (λ t s inv. move n prev inv t.0 t.1)

  pub moved :
      (i k : ℕ) (s : System Shared Place) (q : Place)
      → s.pc i ≡ q
      → ((alone i k s).mem, (alone i k s).pc i) ≡ local (step n prev) true i k s.mem q
  moved i k s q e =
      (run-solo (step n prev) true i k s).own ∙ ap (local (step n prev) true i k s.mem) e

  pub from-comparing_again :
      (s : System Shared Place) → Inv n prev s.mem s.pc → s.pc n ≡ comparing_again → CanPass s
  unfolding local step
  from-comparing_again s inv e =
      let a : At n prev n s.mem comparing_again = rw e at (inv.at n) in
      let h = moved n 1 s comparing_again e in
      (solo (step n prev) true n 1, ap (λ x. x.1) h ∙ ground (arith, inv.counted))

  from-again_done :
      (s : System Shared Place) (p : Pc)
      → Inv n prev s.mem s.pc
      → s.pc n ≡ again p
      → s.mem.block.once ≡ 2
      → CanPass s
  from-again_done s p inv e o =
      let a : At n prev n s.mem (again p) = rw e at (inv.at n) in
      let f : Invariant.Fact s.mem.block p = rw e at (inv.once.fact n) in
      let (k, h) = local-again_done n prev n s.mem p f a.3 o a.2 in
      let us = solo (step n prev) true n k in
      via us s (
        from-comparing_again (run (step n prev) us s) (keep us s inv)
          (ap (λ x. x.1) (moved n k s (again p) e) ∙ h))

  pub from-again :
      (s : System Shared Place) (p : Pc) → Inv n prev s.mem s.pc → s.pc n ≡ again p → CanPass s
  from-again s p inv e =
      let a : At n prev n s.mem (again p) = rw e at (inv.at n) in
      let f : Invariant.Fact s.mem.block p = rw e at (inv.once.fact n) in
      elim (ℕ_discrete s.mem.block.once 1) [
        | no other ↦
            from-again_done s p inv e
              (ground (arith, inv.once.counts.three, inv.once.counts.fresh, a.2))
        | yes busy ↦
            let (j, w) = inv.once.waker busy in
            elim (ℕ_discrete j n) [
              | yes mine ↦
                  let w' : wakes p ≡ true =
                    ap (λ q. wakes (once_place q)) (sym e ∙ sym (ap s.pc mine)) ∙ w in
                  let (k, h) = local-again_wakes n prev n s.mem p f w' a.2 in
                  let us = solo (step n prev) true n k in
                  via us s (
                    from-comparing_again (run (step n prev) us s) (keep us s inv)
                      (ap (λ x. x.1) (moved n k s (again p) e) ∙ h))
              | no other ↦
                  let (k, h) = local-wakes n prev j s.mem (s.pc j) w in
                  let us = solo (step n prev) true j k in
                  via us s (
                    from-again_done (run (step n prev) us s) p (keep us s inv)
                      ((run-solo (step n prev) true j k s).others n other ∙ e)
                      (ap (λ x. x.0.block.once) (run-solo (step n prev) true j k s).own ∙ h))
            ]
      ]

  pub from-comparing :
      (s : System Shared Place) (passed : ℕ)
      → Inv n prev s.mem s.pc
      → s.pc n ≡ comparing passed
      → CanPass s
  unfolding local step
  from-comparing s passed inv e =
      let a : At n prev n s.mem (comparing passed) = rw e at (inv.at n) in
      let us = solo (step n prev) true n 1 in
      via us s (
        from-again (run (step n prev) us s) idle (keep us s inv)
          (ap (λ x. x.1) (moved n 1 s (comparing passed) e) ∙ ground (arith, inv.counted)))

  -- The threads can bring the block out of "in progress" while `main` stands still.
  settle :
      (s : System Shared Place) (q : Place)
      → Inv n prev s.mem s.pc
      → s.pc n ≡ q
      → wakes (once_place q) ≡ false
      → (us : List (ℕ × Bool)) × (let s' = run (step n prev) us s in
          (s'.pc n ≡ q)
          × ((s'.mem.block.once ≡ 0) ⊎ ((s'.mem.block.once ≡ 2) × (s'.mem.block.finished ≡ 1))))
  unfolding run
  settle s q inv e still = elim (ℕ_discrete s.mem.block.once 1) [
    | no other ↦ ([], (e, ground (arith, inv.once.counts.three, inv.once.counts.done)))
    | yes busy ↦
        let (j, w) = inv.once.waker busy in
        let (k, h) = local-wakes n prev j s.mem (s.pc j) w in
        let us = solo (step n prev) true j k in
        let o : (run (step n prev) us s).mem.block.once ≡ 2 =
          ap (λ x. x.0.block.once) (run-solo (step n prev) true j k s).own ∙ h in
        let other : j ≢ n =
          λ mine. true≢false (sym w ∙ ap (λ q. wakes (once_place q)) (ap s.pc mine ∙ e) ∙ still) in
        (
          us,
          (
            (run-solo (step n prev) true j k s).others n other ∙ e,
            inr (o, ((keep us s inv).once.counts.done o).1),
          ),
        )
  ]

  pub worker-ends :
      (s : System Shared Place) (k passed : ℕ)
      → Inv n prev s.mem s.pc
      → s.pc n ≡ joining k passed
      → (us : List (ℕ × Bool)) × (let s' = run (step n prev) us s in
          (s'.pc n ≡ joining k passed) × (s'.pc k ≡ ended))
  worker-ends s k passed inv e =
      let (us, (e', o)) = settle s (joining k passed) inv e refl in
      let s' = run (step n prev) us s in
      let inv' = keep us s inv in
      let a : At n prev n s'.mem (joining k passed) = rw e' at (inv'.at n) in
      let (l, h) =
        local-worker n prev k s'.mem (s'.pc k) (inv'.at k) (omega (arith, a)) inv'.few
          (inv'.once.fact k) o in
      let vs = solo (step n prev) true k l in
      let after_both = run-++ (step n prev) us vs s in
      let ran = run-solo (step n prev) true k l s' in
      (
        us ++ vs,
        (
          ap (λ s. s.pc n) after_both ∙ ran.others n (λ z. omega (arith, a, z)) ∙ e',
          ap (λ s. s.pc k) after_both ∙ ap (λ x. x.1) ran.own ∙ h,
        ),
      )
