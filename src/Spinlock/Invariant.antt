-- ===== src/Spinlock/Invariant.antt =====
-- Who owns the spinlock: true at the start and kept by every access of every thread.
use ccthread.Prelude.{
  ℕ, ◌<◌, ◌≡◌, refl, sym, ◌≢◌, ◌⊎◌, Bool, true, false, List, arith, ltb, update, update-cases,
  Bool-cases, inl, inr, run-keeps,
}
use ccthread.Spinlock.Threads.{
  Spin, Pc, idle, try_test, try_match, try_load, try_store, try_swap, try_owner, try_depth, un_test,
  un_load, un_store, un_owner, un_clear, un_flag, overflow, Choice, lock, step, init, after,
}

-- The flag is set on behalf of this thread.
abbrev pub owns : Pc → Bool
owns (idle d) = ltb 0 d
owns (try_test d) = ltb 0 d
owns (try_match d) = ltb 0 d
owns (try_swap _) = false
owns _ = true

-- What a thread with OS thread id `t` and depth `d` knows of the struct between its calls.
abbrev pub Holding : ℕ → Spin → ℕ → Type 0
Holding t m d = (0 < d → (m.owner_tid ≡ t) × (m.recursion ≡ d)) × (d ≡ 0 → m.owner_tid ≢ t)

-- What it knows at each place.
abbrev pub Fact : ℕ → Spin → Pc → Type 0
Fact t m (idle d) = Holding t m d
Fact t m (try_test d) = Holding t m d
Fact t m (try_match d) = Holding t m d
Fact t m (try_load d) = (0 < d) × (m.owner_tid ≡ t) × (m.recursion ≡ d)
Fact t m (try_store d r) = (0 < d) × (m.owner_tid ≡ t) × (m.recursion ≡ d) × (r ≡ d)
Fact t m (try_swap d) = (d ≡ 0) × (m.owner_tid ≢ t)
Fact t m (try_owner d) = (d ≡ 0) × (m.owner_tid ≢ t)
Fact t m (try_depth d) = (d ≡ 0) × (m.owner_tid ≡ t)
Fact t m (un_test d) = (0 < d) × (m.owner_tid ≡ t) × (m.recursion ≡ d)
Fact t m (un_load d) = (1 < d) × (m.owner_tid ≡ t) × (m.recursion ≡ d)
Fact t m (un_store d r) = (1 < d) × (m.owner_tid ≡ t) × (r ≡ d)
Fact t m (un_owner d) = (d ≡ 1) × (m.owner_tid ≡ t)
Fact t m (un_clear d) = (d ≡ 1) × (m.owner_tid ≢ t)
Fact t m (un_flag d) = (d ≡ 1) × (m.owner_tid ≢ t)
Fact t m (overflow d) = m.owner_tid ≡ t

pub record Inv (tid : ℕ → ℕ) (m : Spin) (pc : ℕ → Pc) : Type 0 where
  pub flagged : (i : ℕ) → owns (pc i) ≡ true → m.flag ≡ 1
  pub unique : (i j : ℕ) → owns (pc i) ≡ true → owns (pc j) ≡ true → i ≡ j
  pub holder : m.flag ≢ 0 → (i : ℕ) × (owns (pc i) ≡ true)
  pub fact : (i : ℕ) → Fact (tid i) m (pc i)

-- The mover's own place.
Fact-self :
    (t : ℕ) (c : Choice) (m : Spin) (p : Pc)
    → t ≢ 0
    → Fact t m p
    → Fact t (step t c m p).0 (step t c m p).1
unfolding step
Fact-self t lock m (idle d) h f = ground arith
Fact-self t c m p h f = ground arith

-- The place of another thread, which does not own the lock together with the mover.
Fact-other :
    (t u : ℕ) (c : Choice) (m : Spin) (p q : Pc)
    → u ≢ 0
    → t ≢ u
    → (owns p ≡ true → owns q ≡ false)
    → Fact t m p
    → Fact u m q
    → Fact u (step t c m p).0 q
unfolding step
Fact-other t u lock m (idle d) q h n o f g = g
Fact-other t u c m p q h n o f g = ground arith

-- A move makes a thread the owner only by setting a clear flag.
owns-step :
    (t : ℕ) (c : Choice) (m : Spin) (p : Pc)
    → Fact t m p
    → owns (step t c m p).1 ≡ true
    → (owns p ≡ true) ⊎ (m.flag ≡ 0)
unfolding step
owns-step t lock m (idle d) f o = ground arith
owns-step t c m p f o = ground arith

-- The flag while the mover owns the lock before or after its move.
flag-step :
    (t : ℕ) (c : Choice) (m : Spin) (p : Pc)
    → (owns p ≡ true → m.flag ≡ 1)
    → Fact t m p
    → owns (step t c m p).1 ≡ true
    → (step t c m p).0.flag ≡ 1
unfolding step
flag-step t lock m (idle d) h f o = ground arith
flag-step t c m p h f o = ground arith

-- The flag while another thread owns the lock.
flag-step_other :
    (t : ℕ) (c : Choice) (m : Spin) (p : Pc)
    → owns p ≡ false
    → m.flag ≡ 1
    → (step t c m p).0.flag ≡ 1
unfolding step
flag-step_other t lock m (idle d) o h = h
flag-step_other t c m p o h = ground arith

-- A set flag was set before, or the mover owns the lock.
holder-step :
    (t : ℕ) (c : Choice) (m : Spin) (p : Pc)
    → t ≢ 0
    → Fact t m p
    → (step t c m p).0.flag ≢ 0
    → (owns (step t c m p).1 ≡ true) ⊎ ((m.flag ≢ 0) × (owns p ≡ false))
unfolding step
holder-step t lock m (idle d) n f h = ground arith
holder-step t c m p n f h = ground arith

module _ (tid : ℕ → ℕ) (positive : (i : ℕ) → tid i ≢ 0)
    (distinct : (i j : ℕ) → tid i ≡ tid j → i ≡ j) {m : Spin} {pc : ℕ → Pc} (inv : Inv tid m pc)
    (i : ℕ) (c : Choice) where
  open inv use {flagged, unique, holder, fact}

  abbrev after_move : Spin × Pc
  after_move = step (tid i) c m (pc i)

  move-Fact : (j : ℕ) → Fact (tid j) after_move.0 (update pc i after_move.1 j)
  move-Fact j =
      update-cases (λ p. Fact (tid j) after_move.0 p) pc i after_move.1 j
        (λ e. rw (← e) (Fact-self (tid i) c m (pc i) (positive i) (fact i)))
        (λ n.
          Fact-other (tid i) (tid j) c m (pc i) (pc j) (positive j) (λ e. n (distinct i j e))
            (λ o. ground (arith, unique i j)) (fact i) (fact j))

  move-flagged : (j : ℕ) → owns (update pc i after_move.1 j) ≡ true → after_move.0.flag ≡ 1
  move-flagged j =
      update-cases (λ p. owns p ≡ true → after_move.0.flag ≡ 1) pc i after_move.1 j
        (λ e. flag-step (tid i) c m (pc i) (flagged i) (fact i))
        (λ n o. elim (Bool-cases (owns (pc i))) [
          | inl mine ↦ absurd (n (unique i j mine o))
          | inr not_mine ↦ flag-step_other (tid i) c m (pc i) not_mine (flagged j o)
        ])

  -- If the mover owns the lock afterwards, no other thread does.
  move-alone : (j : ℕ) → owns after_move.1 ≡ true → owns (pc j) ≡ true → i ≡ j
  move-alone j o q = elim (owns-step (tid i) c m (pc i) (fact i) o) [
    | inl mine ↦ unique i j mine q
    | inr clear ↦ absurd (omega (arith, flagged j q))
  ]

  move_unique :
      (j k : ℕ)
      → owns (update pc i after_move.1 j) ≡ true
      → owns (update pc i after_move.1 k) ≡ true
      → j ≡ k
  move_unique j k =
      update-cases (λ p. owns p ≡ true → owns (update pc i after_move.1 k) ≡ true → j ≡ k) pc i
        after_move.1 j
        (λ e o.
          update-cases (λ p. owns p ≡ true → j ≡ k) pc i after_move.1 k (λ e' o'. omega arith)
            (λ n o'. omega (arith, move-alone k o o')))
        (λ n o.
          update-cases (λ p. owns p ≡ true → j ≡ k) pc i after_move.1 k
            (λ e' o'. omega (arith, move-alone j o' o)) (λ n' o'. unique j k o o'))

  move-holder : after_move.0.flag ≢ 0 → (j : ℕ) × (owns (update pc i after_move.1 j) ≡ true)
  move-holder h = elim (holder-step (tid i) c m (pc i) (positive i) (fact i) h) [
    | inl mine ↦ (
      i,
      update-cases (λ p. owns p ≡ true) pc i after_move.1 i (λ e. mine) (λ n. absurd (n refl)),
    )
    | inr (was, not_mine) ↦
        let (j, o) = holder was in
        (j, update-cases (λ p. owns p ≡ true) pc i after_move.1 j (λ e. ground arith) (λ n. o))
  ]

  pub move-Inv : Inv tid after_move.0 (update pc i after_move.1)
  move-Inv = record {
    flagged = move-flagged;
    unique = move_unique;
    holder = move-holder;
    fact = move-Fact;
  }

pub Inv-init : (tid : ℕ → ℕ) → ((i : ℕ) → tid i ≢ 0) → Inv tid init.mem init.pc
Inv-init tid positive = record {
  flagged = λ i o. ground arith;
  unique = λ i j o o'. ground arith;
  holder = λ h. absurd (h refl);
  fact = λ i. ((λ h. omega arith), (λ e h. positive i (sym h)));
}

pub after-Inv :
    (tid : ℕ → ℕ)
    → ((i : ℕ) → tid i ≢ 0)
    → ((i j : ℕ) → tid i ≡ tid j → i ≡ j)
    → (ts : List (ℕ × Choice)) → Inv tid (after tid ts).mem (after tid ts).pc
after-Inv tid positive distinct ts =
    run-keeps (λ i. step (tid i)) (λ s. Inv tid s.mem s.pc)
      (λ t s inv. move-Inv tid positive distinct inv t.0 t.1) ts init (Inv-init tid positive)
