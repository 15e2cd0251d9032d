-- ===== src/Examples/Counter/Invariant.antt =====
-- The counter and the rounds left add up: true at the start and kept by every access.
use ccthread.Prelude.{
  ℕ, ◌+◌, ◌*◌, ◌<◌, ◌≡◌, refl, ◌≢◌, ◌⊎◌, inl, inr, true, false, List, arith, update, update-cases,
  update_same, update-map, sum, sum-update, sum-constant, run-bounded, Bool-cases,
}
use ccthread.Spinlock.Threads.{
  Spin, Pc, idle, try_test, un_test, un_load, un_store, un_owner, un_clear, un_flag, Choice, lock,
  unlock,
}
use ccthread.Spinlock.Threads
use ccthread.Spinlock.Invariant.{Fact, owns, move-Inv, Inv-init}
use ccthread.Spinlock.Invariant
use ccthread.Examples.Counter.{
  Shared, Place, acquiring, loading, storing, releasing, finished, depth, next_round, step, init,
  bounded_step, after,
}

-- The worker's place in the lock's calls.
abbrev pub lock_place : Place → Pc
lock_place (acquiring _ p) = p
lock_place (loading _ p) = p
lock_place (storing _ _ p) = p
lock_place (releasing _ p) = p
lock_place (finished p) = p

-- The additions that a worker has still to make.
abbrev pub left : Place → ℕ
left (acquiring k _) = k
left (loading k _) = k
left (storing k _ _) = k
left (releasing k _) = k
left (finished _) = 0

-- The places on the way out of the lock.
abbrev IsLeaving : Pc → Type 0
IsLeaving (idle d) = d ≡ 1
IsLeaving (un_test d) = d ≡ 1
IsLeaving (un_load d) = d ≡ 1
IsLeaving (un_store d _) = d ≡ 1
IsLeaving (un_owner d) = d ≡ 1
IsLeaving (un_clear d) = d ≡ 1
IsLeaving (un_flag d) = d ≡ 1
IsLeaving _ = ⊥

abbrev IsEntering : Pc → Type 0
IsEntering (un_test _) = ⊥
IsEntering (un_load _) = ⊥
IsEntering (un_store _ _) = ⊥
IsEntering (un_owner _) = ⊥
IsEntering (un_clear _) = ⊥
IsEntering (un_flag _) = ⊥
IsEntering p = depth p ≡ 0

abbrev pub At : Shared → Place → Type 0
At m (acquiring k p) = (0 < k) × IsEntering p
At m (loading k p) = (0 < k) × (p ≡ idle 1)
At m (storing k v p) = (0 < k) × (p ≡ idle 1) × (v ≡ m.counter)
At m (releasing k p) = IsLeaving p
At m (finished p) = p ≡ idle 0

-- An access of the client is one of the lock, or leaves the lock alone.
lock-moves :
    (t : ℕ) (m : Shared) (q : Place)
    → ((c : Choice) × ((step t tt m q).0.spin ≡ (Threads.step t c m.spin (lock_place q)).0)
        × (lock_place (step t tt m q).1 ≡ (Threads.step t c m.spin (lock_place q)).1))
      ⊎ (((step t tt m q).0.spin ≡ m.spin) × (lock_place (step t tt m q).1 ≡ lock_place q))
unfolding step
lock-moves t m (acquiring k p) = inl (lock, refl, ground arith)
lock-moves t m (loading k p) = inr (refl, refl)
lock-moves t m (storing k v p) = inr (refl, refl)
lock-moves t m (releasing k p) = inl (unlock, refl, ground arith)
lock-moves t m (finished p) = inr (refl, refl)

At-acquiring :
    (t k : ℕ) (m : Shared) (p : Pc)
    → Fact t m.spin p
    → At m (acquiring k p)
    → At (step t tt m (acquiring k p)).0 (step t tt m (acquiring k p)).1
unfolding step Threads.step
At-acquiring t k m (idle d) f a = ground arith
At-acquiring t k m p f a = ground arith

At-releasing :
    (t k : ℕ) (m : Shared) (p : Pc)
    → Fact t m.spin p
    → At m (releasing k p)
    → At (step t tt m (releasing k p)).0 (step t tt m (releasing k p)).1
unfolding step Threads.step
At-releasing t k m (idle d) f a = ground arith
At-releasing t k m p f a = ground arith

At-self :
    (t : ℕ) (m : Shared) (q : Place)
    → Fact t m.spin (lock_place q)
    → At m q
    → At (step t tt m q).0 (step t tt m q).1
unfolding step
At-self t m (acquiring k p) f a = At-acquiring t k m p f a
At-self t m (releasing k p) f a = At-releasing t k m p f a
At-self t m (loading k p) f a = ground arith
At-self t m (storing k v p) f a = ground arith
At-self t m (finished p) f a = a

-- A thread at its access to the counter owns the lock.
At-other :
    (t : ℕ) (m : Shared) (q r : Place)
    → (owns (lock_place q) ≡ true → owns (lock_place r) ≡ false)
    → At m q
    → At m r
    → At (step t tt m q).0 r
unfolding step
At-other t m (acquiring k p) r o a b = b
At-other t m (loading k p) r o a b = b
At-other t m (storing k v p) (storing j w p') o a b = absurd (ground arith)
At-other t m (storing k v p) r o a b = b
At-other t m (releasing k p) r o a b = b
At-other t m (finished p) r o a b = b

left-step :
    (t : ℕ) (m : Shared) (q : Place)
    → At m q
    → (step t tt m q).0.counter + left (step t tt m q).1 ≡ m.counter + left q
unfolding step
left-step t m (acquiring k p) a = ground arith
left-step t m q a = ground arith

pub record Inv (tid : ℕ → ℕ) (rounds n : ℕ) (m : Shared) (pc : ℕ → Place) : Type 0 where
  pub locking : Invariant.Inv tid m.spin (λ i. lock_place (pc i))
  pub place : (i : ℕ) → At m (pc i)
  pub total : m.counter + sum (λ i. left (pc i)) n ≡ n * rounds

module _ (tid : ℕ → ℕ) (positive : (i : ℕ) → tid i ≢ 0)
    (distinct : (i j : ℕ) → tid i ≡ tid j → i ≡ j) (rounds n : ℕ) where
  module _ {m : Shared} {pc : ℕ → Place} (inv : Inv tid rounds n m pc) (i : ℕ) (b : i < n) where
    open inv use {locking, place, total}

    abbrev next : Shared × Place
    next = step (tid i) tt m (pc i)

    move-locking : Invariant.Inv tid next.0.spin (λ j. lock_place (update pc i next.1 j))
    move-locking = rw (update-map lock_place pc i next.1) (elim (lock-moves (tid i) m (pc i)) [
      | inl (c, same_spin, same_place) ↦
          rw (same_spin, same_place) (move-Inv tid positive distinct locking i c)
      | inr (same_spin, same_place) ↦
          rw (same_spin, same_place, update_same (λ j. lock_place (pc j)) i) locking
    ])

    alone : (j : ℕ) → i ≢ j → owns (lock_place (pc i)) ≡ true → owns (lock_place (pc j)) ≡ false
    alone j ne o = elim (Bool-cases (owns (lock_place (pc j)))) [
      | inl too ↦ absurd (ne (locking.unique i j o too))
      | inr not_too ↦ not_too
    ]

    move-Inv_of : Inv tid rounds n next.0 (update pc i next.1)
    move-Inv_of = record {
      locking = move-locking;
      place = λ j.
          update-cases (λ p. At next.0 p) pc i next.1 j
            (λ _. At-self (tid i) m (pc i) (locking.fact i) (place i))
            (λ ne. At-other (tid i) m (pc i) (pc j) (alone j ne) (place i) (place j));
      total =
          omega
            (arith, total, sum-update left pc n i next.1 b, left-step (tid i) m (pc i) (place i));
    }

  At-init : At (init rounds).mem (next_round rounds (idle 0))
  At-init = ground arith

  Inv-start : Inv tid rounds n (init rounds).mem (init rounds).pc
  Inv-start = record {
    locking = start;
    place = λ i. At-init;
    total = rw left_start (omega (arith, sum-constant rounds n));
  }
    where
      left_start : left (next_round rounds (idle 0)) ≡ rounds
      left_start = ground arith

      start : Invariant.Inv tid Threads.init.mem (λ i. lock_place (next_round rounds (idle 0)))
      start =
          let e : lock_place (next_round rounds (idle 0)) ≡ idle 0 = ground arith in
          rw e (Inv-init tid positive)

  pub after-Inv :
      (ts : List (ℕ × Unit {0}))
      → Inv tid rounds n (after tid rounds n ts).mem (after tid rounds n ts).pc
  unfolding bounded_step
  after-Inv ts =
      run-bounded (λ i. step (tid i)) n (Inv tid rounds n) (λ i c m pc b inv. move-Inv_of inv i b)
        ts (init rounds) Inv-start
