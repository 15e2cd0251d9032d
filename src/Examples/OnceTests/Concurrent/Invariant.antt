-- ===== src/Examples/OnceTests/Concurrent/Invariant.antt =====
-- What test_concurrent has counted so far: true at the start and kept by every access.
use ccthread.Prelude.{
  ℕ, ◌+◌, ◌≤◌, ◌<◌, ◌≡◌, refl, ◌≢◌, inl, inr, Bool, true, List, arith, ◌==◌, if◌then◌else◌, update,
  update-cases, update_same, update-map, run-keeps, ap, ◌∙◌,
}
use ccthread.Types.{ok}
use ccthread.Once.Threads.{idle, returned}
use ccthread.Once.Invariant
use ccthread.Once.Invariant.{move-Inv, Inv-init, Counts}
use ccthread.Examples.OnceTests.Concurrent.{
  Place, unborn, returning, ended, creating, Shared, step, init, after, next_create, once_step,
}
use ccthread.Examples.OnceTests.Concurrent.Moves.{
  once_place, At, once-moves, counted-step, At-self, Later-step, At-other,
}
use mathlib.Core.Path.{fun_ext, subst}

module _ (n prev : ℕ) where
  pub record Inv (m : Shared) (pc : ℕ → Place) : Type 0 where
    pub once : Invariant.Inv m.block (λ j. once_place (pc j))
    pub counted : m.s_init_count ≡ prev + m.block.finished
    pub few : m.created ≤ n
    pub at : (j : ℕ) → At n prev j m (pc j)
    pub gone : (j : ℕ) → m.over j ≡ true → pc j ≡ ended

  gone_self :
      (i : ℕ) (c : Bool) (m : Shared) (q : Place)
      → (m.over i ≡ true → q ≡ ended)
      → (step n prev i c m q).0.over i ≡ true
      → (step n prev i c m q).1 ≡ ended
  unfolding step once_step
  gone_self i c m returning g o = refl
  gone_self i c m ended g o = refl
  gone_self i c m q g o = ground (arith, g)

  gone_other :
      (i j : ℕ) (c : Bool) (m : Shared) (q : Place)
      → i ≢ j
      → (step n prev i c m q).0.over j ≡ true
      → m.over j ≡ true
  unfolding step once_step
  gone_other i j c m returning d o = ground arith
  gone_other i j c m q d o = ground arith

  few-step :
      (i : ℕ) (c : Bool) (m : Shared) (q : Place)
      → At n prev i m q
      → m.created ≤ n
      → (step n prev i c m q).0.created ≤ n
  unfolding step once_step
  few-step i c m (creating k) a f = ground arith
  few-step i c m q a f = ground arith

  module _ {m : Shared} {pc : ℕ → Place} (inv : Inv m pc) (i : ℕ) (c : Bool) where
    open inv use {once, counted, few, at, gone}

    abbrev next : Shared × Place
    next = step n prev i c m (pc i)

    move-once : Invariant.Inv next.0.block (λ j. once_place (update pc i next.1 j))
    move-once =
        rw (update-map once_place pc i next.1)
          (elim (once-moves n prev i c m (pc i) (at i) counted) [
            | inl (same_block, same_place) ↦ rw (same_block, same_place) (move-Inv once i)
            | inr (same_block, same_place) ↦
                rw (same_block, same_place, update_same (λ j. once_place (pc j)) i) once
          ])

    over-result : (k : ℕ) → m.over k ≡ true → (m.result k ≡ ok) × (m.block.finished ≡ 1)
    over-result k o =
        let a : At n prev k m ended = rw (gone k o) at (at k) in
        let f : Invariant.Fact m.block returned = rw (gone k o) at (once.fact k) in (a.1, f.1)

    move-over : (j : ℕ) → next.0.over j ≡ true → update pc i next.1 j ≡ ended
    move-over j o =
        update-cases (λ p. p ≡ ended) pc i next.1 j
          (λ e. gone_self i c m (pc i) (gone i) (ap next.0.over e ∙ o))
          (λ d. gone j (gone_other i j c m (pc i) d o))

    pub move : Inv next.0 (update pc i next.1)
    move = record {
      once = move-once;
      counted = counted-step n prev i c m (pc i) counted;
      few = few-step i c m (pc i) (at i) few;
      at = λ j.
          update-cases (λ p. At n prev j next.0 p) pc i next.1 j
            (λ e.
              subst (λ k. At n prev k next.0 next.1) e
                (At-self n prev i c m (pc i) counted over-result (once.fact i) (at i)))
            (λ d.
              At-other n prev i j m next.0 (pc j) d
                (Later-step n prev i j c m (pc i) d (once.fact i) (at i)) (at j));
      gone = move-over;
    }

  start : (i : ℕ) → once_place (if i == n then next_create n prev 0 else unborn) ≡ idle
  start i = ground arith

  Inv-start : 0 < n → Inv (init n prev).mem (init n prev).pc
  Inv-start positive = record {
    once =
        let e : (λ i. once_place ((init n prev).pc i)) ≡ (λ i. idle) = fun_ext start in
        rw e Inv-init;
    counted = omega arith;
    few = omega arith;
    at = λ j. ground arith;
    gone = λ j o. ground arith;
  }

  pub after-Inv : (ts : List (ℕ × Bool)) → 0 < n → Inv (after n prev ts).mem (after n prev ts).pc
  after-Inv ts positive =
      run-keeps (step n prev) (λ s. Inv s.mem s.pc) (λ t s inv. move inv t.0 t.1) ts (init n prev)
        (Inv-start positive)
