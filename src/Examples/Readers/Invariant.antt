-- ===== src/Examples/Readers/Invariant.antt =====
-- The value and the additions left add up: true at the start and kept by every access.
use ccthread.Prelude.{
  ℕ, ◌+◌, ◌≤◌, ◌<◌, ◌≡◌, refl, ◌≢◌, ◌⊎◌, inl, inr, List, arith, update, update-cases, update_same,
  update-map, sum, sum-update, run-bounded, if◌then◌else◌,
}
use ccthread.Rwlock.Threads.{
  SrwLock, Rw, Mode, reader, writer, Pc, idle, want_read, want_write, own, inside, un_test,
  un_match, un_clear, un_exclusive, un_shared, Choice,
}
use mathlib.Core.Path.{fun_ext}
use ccthread.Rwlock.Threads
use ccthread.Rwlock.Invariant.{writes, move-Inv, one_writer, Inv-init}
use ccthread.Rwlock.Invariant
use ccthread.Examples.Readers.{
  Place, acquiring, loading, storing, releasing, finished, choice_of, is_inside, next_round, Shared,
  step, init, bounded_step, after,
}

-- The thread's place in the lock's calls.
abbrev pub lock_place : Place → Pc
lock_place (acquiring _ _ p) = p
lock_place (loading k _) = inside k
lock_place (storing _ _) = inside writer
lock_place (releasing _ _ p) = p
lock_place finished = idle

-- The additions that a thread has still to make.
abbrev pub left : Place → ℕ
left (acquiring writer r _) = r
left (loading writer r) = r
left (storing r _) = r
left (releasing writer r _) = r
left _ = 0

abbrev IsEntering : Mode → Pc → Type 0
IsEntering k idle = Unit {0}
IsEntering reader want_read = Unit {0}
IsEntering writer want_write = Unit {0}
IsEntering writer own = Unit {0}
IsEntering k p = ⊥

abbrev IsLeaving : Mode → Pc → Type 0
IsLeaving k (inside j) = j ≡ k
IsLeaving k (un_test j) = j ≡ k
IsLeaving k (un_match j) = j ≡ k
IsLeaving k (un_clear j) = j ≡ k
IsLeaving k (un_exclusive j) = j ≡ k
IsLeaving k (un_shared j) = j ≡ k
IsLeaving k p = ⊥

-- The additions of thread `i`.
abbrev pub quota : (ℕ → Mode) → (ℕ → ℕ) → ℕ → ℕ
quota role rounds i = left (next_round (role i) (rounds i))

module _ (srw : SrwLock) where
  abbrev pub At : Shared srw → Place → Type 0
  At m (acquiring k r p) = (0 < r) × IsEntering k p
  At m (loading k r) = 0 < r
  At m (storing r v) = (0 < r) × (v ≡ m.value)
  At m (releasing k r p) = IsLeaving k p
  At m finished = Unit {0}

  entered :
      (t r : ℕ) (m : Rw srw) (k : Mode) (p : Pc)
      → IsEntering k p
      → let p' = (Threads.step srw t (choice_of k) m p).1 in
        lock_place (if is_inside p' then loading k r else acquiring k r p') ≡ p'
  unfolding Threads.step
  entered t r m reader idle a = refl
  entered t r m writer idle a = refl
  entered t r m k p a = ground arith

  -- An access of the client is one of the lock, or leaves the lock alone.
  lock-moves :
      (t : ℕ) (m : Shared srw) (q : Place)
      → At m q
      → ((c : Choice) × ((step srw t tt m q).0.lock
            ≡ (Threads.step srw t c m.lock (lock_place q)).0)
          × (lock_place (step srw t tt m q).1 ≡ (Threads.step srw t c m.lock (lock_place q)).1))
        ⊎ (((step srw t tt m q).0.lock ≡ m.lock)
            × (lock_place (step srw t tt m q).1 ≡ lock_place q))
  unfolding step
  lock-moves t m (acquiring reader r p) a =
      inl (Threads.read, refl, entered t r m.lock reader p a.1)
  lock-moves t m (acquiring writer r p) a =
      inl (Threads.write, refl, entered t r m.lock writer p a.1)
  lock-moves t m (loading reader r) a = inr (refl, refl)
  lock-moves t m (loading writer r) a = inr (refl, refl)
  lock-moves t m (storing r v) a = inr (refl, refl)
  lock-moves t m (releasing reader r p) a = inl (Threads.read, refl, ground arith)
  lock-moves t m (releasing writer r p) a = inl (Threads.write, refl, ground arith)
  lock-moves t m finished a = inr (refl, refl)

  At-acquiring :
      (t r : ℕ) (m : Shared srw) (k : Mode) (p : Pc)
      → At m (acquiring k r p)
      → At (step srw t tt m (acquiring k r p)).0 (step srw t tt m (acquiring k r p)).1
  unfolding step Threads.step
  At-acquiring t r m reader idle a = ground arith
  At-acquiring t r m writer idle a = ground arith
  At-acquiring t r m k p a = ground arith

  At-releasing :
      (t r : ℕ) (m : Shared srw) (k : Mode) (p : Pc)
      → At m (releasing k r p)
      → At (step srw t tt m (releasing k r p)).0 (step srw t tt m (releasing k r p)).1
  unfolding step Threads.step
  At-releasing t r m k p a = ground arith

  At-self :
      (t : ℕ) (m : Shared srw) (q : Place) → At m q → At (step srw t tt m q).0 (step srw t tt m q).1
  unfolding step
  At-self t m (acquiring k r p) a = At-acquiring t r m k p a
  At-self t m (releasing k r p) a = At-releasing t r m k p a
  At-self t m (loading reader r) a = refl
  At-self t m (loading writer r) a = (a, refl)
  At-self t m (storing r v) a = refl
  At-self t m finished a = a

  -- A thread at its access for writing is the writer.
  At-other :
      (t : ℕ) (m : Shared srw) (q r : Place)
      → writes (lock_place q) + writes (lock_place r) ≤ 1
      → At m r
      → At (step srw t tt m q).0 r
  unfolding step
  At-other t m (loading reader k) r o b = b
  At-other t m (loading writer k) r o b = b
  At-other t m (storing k v) (storing j w) o b = absurd (omega arith)
  At-other t m (acquiring k j p) r o b = ground arith
  At-other t m q r o b = ground arith

  left-step :
      (t : ℕ) (m : Shared srw) (q : Place)
      → At m q
      → (step srw t tt m q).0.value + left (step srw t tt m q).1 ≡ m.value + left q
  unfolding step
  left-step t m (acquiring reader r p) a = ground arith
  left-step t m (acquiring writer r p) a = ground arith
  left-step t m (releasing reader r p) a = ground arith
  left-step t m (releasing writer r p) a = ground arith
  left-step t m (loading reader r) a = refl
  left-step t m q a = ground arith

  pub record Inv (tid quota : ℕ → ℕ) (n : ℕ) (m : Shared srw) (pc : ℕ → Place) : Type 0 where
    pub locking : Invariant.Inv srw tid n m.lock (λ i. lock_place (pc i))
    pub place : (i : ℕ) → At m (pc i)
    pub total : m.value + sum (λ i. left (pc i)) n ≡ sum quota n

  module _ (tid quota : ℕ → ℕ) (positive : (i : ℕ) → tid i ≢ 0)
      (distinct : (i j : ℕ) → tid i ≡ tid j → i ≡ j) {n : ℕ} {m : Shared srw} {pc : ℕ → Place}
      (inv : Inv tid quota n m pc) (i : ℕ) (b : i < n) where
    open inv use {locking, place, total}

    abbrev next : Shared srw × Place
    next = step srw (tid i) tt m (pc i)

    move-locking : Invariant.Inv srw tid n next.0.lock (λ j. lock_place (update pc i next.1 j))
    move-locking =
        rw (update-map lock_place pc i next.1) (elim (lock-moves (tid i) m (pc i) (place i)) [
          | inl (c, same_lock, same_place) ↦
              rw (same_lock, same_place) (move-Inv srw tid positive distinct locking i c b)
          | inr (same_lock, same_place) ↦
              rw (same_lock, same_place, update_same (λ j. lock_place (pc j)) i) locking
        ])

    move-Inv_of : Inv tid quota n next.0 (update pc i next.1)
    move-Inv_of = record {
      locking = move-locking;
      place = λ j.
          update-cases (λ p. At next.0 p) pc i next.1 j (λ _. At-self (tid i) m (pc i) (place i))
            (λ ne.
              At-other (tid i) m (pc i) (pc j)
                (one_writer srw tid positive distinct locking i Threads.read b j ne) (place j));
      total =
          omega
            (arith, total, sum-update left pc n i next.1 b, left-step (tid i) m (pc i) (place i));
    }

  outside : (k : Mode) (r : ℕ) → lock_place (next_round k r) ≡ idle
  outside k r = ground arith

  At-init :
      (role : ℕ → Mode) (rounds : ℕ → ℕ) (i : ℕ)
      → At (init srw role rounds).mem (next_round (role i) (rounds i))
  At-init role rounds i = ground arith

  Inv-start :
      (tid : ℕ → ℕ) (role : ℕ → Mode) (rounds : ℕ → ℕ) (n : ℕ)
      → ((i : ℕ) → tid i ≢ 0)
      → Inv tid (quota role rounds) n (init srw role rounds).mem (init srw role rounds).pc
  Inv-start tid role rounds n positive = record {
    locking =
        let e : (λ i. lock_place (next_round (role i) (rounds i))) ≡ (λ i. idle) =
          fun_ext (λ i. outside (role i) (rounds i)) in
        rw e (Inv-init srw tid n positive);
    place = At-init role rounds;
    total = omega arith;
  }

  pub after-Inv :
      (tid : ℕ → ℕ) (role : ℕ → Mode) (rounds : ℕ → ℕ) (n : ℕ) (ts : List (ℕ × Unit {0}))
      → ((i : ℕ) → tid i ≢ 0)
      → ((i j : ℕ) → tid i ≡ tid j → i ≡ j)
      → let s = after srw tid role rounds n ts in Inv tid (quota role rounds) n s.mem s.pc
  unfolding bounded_step
  after-Inv tid role rounds n ts positive distinct =
      run-bounded (λ i. step srw (tid i)) n (Inv tid (quota role rounds) n)
        (λ i c m pc b inv. move-Inv_of tid (quota role rounds) positive distinct inv i b) ts
        (init srw role rounds) (Inv-start tid role rounds n positive)
