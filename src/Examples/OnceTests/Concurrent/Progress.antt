-- ===== src/Examples/OnceTests/Concurrent/Progress.antt =====
-- test_concurrent can always go on to its end.
use ccthread.Prelude.{
  ℕ, zero, suc, ◌+◌, ◌-◌, ◌<◌, ◌≡◌, refl, ap, ◌∙◌, ◌⊎◌, inl, inr, Bool, true, false, List, [],
  arith, System, run, solo, local, ℕ_discrete,
}
use ccthread.Types.{ok}
use ccthread.Examples.OnceTests.Concurrent.{
  Place, unborn, ended, creating, joining, reading, comparing, again, comparing_again, answered,
  Shared, step, after, next_create, next_join,
}
use ccthread.Examples.OnceTests.Concurrent.Moves.{At}
use ccthread.Examples.OnceTests.Concurrent.Invariant.{Inv, after-Inv}
use ccthread.Examples.OnceTests.Concurrent.Waking.{
  CanPass, via, keep, moved, from-comparing_again, from-again, from-comparing, worker-ends,
}

module _ (n prev : ℕ) where
  two_turns :
      (m : Shared) (k passed : ℕ)
      → m.over k ≡ true
      → m.result k ≡ ok
      → (local (step n prev) true n 2 m (joining k passed)).1
        ≡ next_join n prev (k + 1) (passed + 1)
  unfolding local step
  two_turns m k passed o r = ground arith

  join_round :
      (s : System Shared Place) (k passed : ℕ)
      → Inv n prev s.mem s.pc
      → s.pc n ≡ joining k passed
      → ((s' : System Shared Place)
          → Inv n prev s'.mem s'.pc
          → s'.pc n ≡ next_join n prev (k + 1) (passed + 1)
          → CanPass n prev s')
      → CanPass n prev s
  join_round s k passed inv e rest =
      let (us, (e', fin)) = worker-ends n prev s k passed inv e in
      let s' = run (step n prev) us s in
      let inv' = keep n prev us s inv in
      let a : At n prev k s'.mem ended = rw fin at (inv'.at k) in
      let vs = solo (step n prev) true n 2 in
      via n prev us s (
        via n prev vs s' (
          rest (run (step n prev) vs s') (keep n prev vs s' inv') (
            ap (λ x. x.1) (moved n prev n 2 s' (joining k passed) e')
            ∙ two_turns s'.mem k passed a.2 a.1)))

  from-joining :
      (d : ℕ) (s : System Shared Place) (k passed : ℕ)
      → k + suc d ≡ n
      → Inv n prev s.mem s.pc
      → s.pc n ≡ joining k passed
      → CanPass n prev s
  from-joining zero s k passed size inv e =
      join_round s k passed inv e
        (λ s' inv' there. from-comparing n prev s' (passed + 1) inv' (ground (arith, there)))
  from-joining (suc d) s k passed size inv e = join_round s k passed inv e (λ s' inv' there.
      from-joining d s' (k + 1) (passed + 1) (omega arith) inv' (ground (arith, there)))

  one_turn :
      (m : Shared) (k : ℕ)
      → (local (step n prev) true n 1 m (creating k)).1 ≡ next_create n prev (k + 1)
  unfolding local step
  one_turn m k = refl

  create_round :
      (s : System Shared Place) (k : ℕ)
      → Inv n prev s.mem s.pc
      → s.pc n ≡ creating k
      → ((s' : System Shared Place)
          → Inv n prev s'.mem s'.pc
          → s'.pc n ≡ next_create n prev (k + 1)
          → CanPass n prev s')
      → CanPass n prev s
  create_round s k inv e rest =
      let us = solo (step n prev) true n 1 in
      via n prev us s (
        rest (run (step n prev) us s) (keep n prev us s inv)
          (ap (λ x. x.1) (moved n prev n 1 s (creating k) e) ∙ one_turn s.mem k))

  from-creating :
      (d : ℕ) (s : System Shared Place) (k : ℕ)
      → k + suc d ≡ n
      → Inv n prev s.mem s.pc
      → s.pc n ≡ creating k
      → CanPass n prev s
  from-creating zero s k size inv e =
      create_round s k inv e
        (λ s' inv' there. from-joining k s' 0 0 (omega arith) inv' (ground (arith, there)))
  from-creating (suc d) s k size inv e =
      create_round s k inv e
        (λ s' inv' there. from-creating d s' (k + 1) (omega arith) inv' (ground (arith, there)))

  from-reading :
      (s : System Shared Place) (k passed : ℕ)
      → Inv n prev s.mem s.pc
      → s.pc n ≡ reading k passed
      → CanPass n prev s
  unfolding local step
  from-reading s k passed inv e =
      let a : At n prev n s.mem (reading k passed) = rw e at (inv.at n) in
      let b : At n prev k s.mem ended = rw (inv.gone k a.4) at (inv.at k) in
      let us = solo (step n prev) true n 1 in
      let s' = run (step n prev) us s in
      let turned : s'.pc n ≡ next_join n prev (k + 1) (passed + 1) =
        ap (λ x. x.1) (moved n prev n 1 s (reading k passed) e) ∙ ground (arith, b.1) in
      via n prev us s (elim (ℕ_discrete (k + 1) n) [
        | yes last ↦
            from-comparing n prev s' (passed + 1) (keep n prev us s inv) (ground (arith, turned))
        | no more ↦
            from-joining (n - suc (suc k)) s' (k + 1) (passed + 1) (omega (arith, a))
              (keep n prev us s inv) (ground (arith, turned, a))
      ])

  from-place :
      (s : System Shared Place) (q : Place)
      → Inv n prev s.mem s.pc
      → s.pc n ≡ q
      → At n prev n s.mem q
      → ((s.mem.created < n) × (s.pc n ≡ answered false)) ⊎ CanPass n prev s
  unfolding run
  from-place s unborn inv e a = absurd (a refl)
  from-place s (creating k) inv e a = inr (from-creating (n - suc k) s k (omega (arith, a)) inv e)
  from-place s (joining k passed) inv e a =
      inr (from-joining (n - suc k) s k passed (omega (arith, a)) inv e)
  from-place s (reading k passed) inv e a = inr (from-reading s k passed inv e)
  from-place s (comparing passed) inv e a = inr (from-comparing n prev s passed inv e)
  from-place s (again p) inv e a = inr (from-again n prev s p inv e)
  from-place s comparing_again inv e a = inr (from-comparing_again n prev s inv e)
  from-place s (answered true) inv e a = inr ([], e)
  from-place s (answered false) inv e a = inl (ground arith, e)
  from-place s q inv e a = absurd (omega (arith, a, inv.few))

  -- With at least one thread, whatever the order of the accesses so far: test_concurrent can go on to
  -- return 1, unless it has returned 0 because it could not create one of the threads.
  pub concurrent-CanPass :
      (ts : List (ℕ × Bool))
      → 0 < n
      → (((after n prev ts).mem.created < n) × ((after n prev ts).pc n ≡ answered false))
        ⊎ CanPass n prev (after n prev ts)
  concurrent-CanPass ts positive =
      let inv = after-Inv n prev ts positive in
      from-place (after n prev ts) ((after n prev ts).pc n) inv refl (inv.at n)
