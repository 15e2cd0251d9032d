-- ===== src/Sem/Invariant.antt =====
-- What holds of the semaphore on POSIX after every access of every thread.
use ccthread.Prelude.{
  ℕ, ◌+◌, ◌-◌, ◌^◌, ◌≤◌, ◌<◌, ◌≡◌, refl, sym, ◌≢◌, List, arith, update, update-cases, ◌∙◌, sum,
  sum-zero, sum-update, le-sum, two-le-sum, run-bounded, dec_lt,
}
use ccthread.Sem.Threads.{
  Monitor, Choice, wait, Pc, idle, want, test, doze, asleep, relock, try_test, first_test, take,
  give, notify, leave, Shared, step, init, bounded_step, after,
}

-- Who holds the mutex.
abbrev pub holding : Pc → ℕ
holding (test _) = 1
holding (doze _) = 1
holding try_test = 1
holding first_test = 1
holding take = 1
holding give = 1
holding notify = 1
holding leave = 1
holding _ = 0

abbrev pub sleeping : Pc → ℕ
sleeping (asleep _) = 1
sleeping _ = 0

-- Who is going to look at the count, to take a permit, or to signal.
abbrev pub on_its_way : Pc → ℕ
on_its_way (relock _) = 1
on_its_way (test _) = 1
on_its_way take = 1
on_its_way notify = 1
on_its_way _ = 0

module _ (monitor : Monitor) (initial : ℕ) where
  open monitor use {
    holders, sleepers, signals, fresh_law, lock_law, unlock_law, sleep_law, wake_law, expire_law,
    failure_law, signal_law,
  }

  abbrev pub Fact : Shared monitor → Pc → Type 0
  Fact m take = 0 < m.count
  Fact m (doze _) = m.count ≡ 0
  Fact m _ = Unit {0}

  -- The permits add up, as long as no post could have wrapped the count.
  abbrev pub Exact : Shared monitor → Type 0
  Exact m = initial + m.posted < 2 ^ 32 → m.count + m.taken ≡ initial + m.posted

  -- If some sleeper has got no signal, every permit has a signal or one of `active` threads for it.
  abbrev pub Served : Shared monitor → ℕ → Type 0
  Served m active = signals m.state < sleepers m.state → m.count ≤ signals m.state + active

  pub record Inv (n : ℕ) (m : Shared monitor) (pc : ℕ → Pc) : Type 0 where
    pub single : holders m.state ≤ 1
    pub held : holders m.state ≡ sum (λ i. holding (pc i)) n
    pub slept : sleepers m.state ≡ sum (λ i. sleeping (pc i)) n
    pub exact : Exact m
    pub served : Served m (sum (λ i. on_its_way (pc i)) n)
    pub far : (i : ℕ) → n ≤ i → pc i ≡ idle
    pub fact : (i : ℕ) → Fact m (pc i)

  record Moved (m m' : Shared monitor) (p p' : Pc) : Type 0 where
    single' : holders m'.state ≤ 1
    held' : holders m'.state + holding p ≡ holders m.state + holding p'
    slept' : sleepers m'.state + sleeping p ≡ sleepers m.state + sleeping p'
    exact' : Exact m'
    fact' : Fact m' p'

  step-Moved :
      (c : Choice) (m : Shared monitor) (p : Pc)
      → holders m.state ≤ 1
      → holding p ≤ holders m.state
      → sleeping p ≤ sleepers m.state
      → Exact m
      → Fact m p
      → Moved m (step monitor c m p).0 p (step monitor c m p).1
  unfolding step
  step-Moved c m (want wait) o h s e f = ground (arith, lock_law m.state, failure_law m.state)
  step-Moved c m p o h s e f = ground (
    arith,
    lock_law m.state,
    failure_law m.state,
    unlock_law m.state,
    sleep_law m.state,
    wake_law m.state,
    expire_law m.state,
    signal_law m.state,
  )

  step-Served :
      (c : Choice) (m : Shared monitor) (p : Pc) (rest : ℕ)
      → holding p ≤ holders m.state
      → sleeping p ≤ sleepers m.state
      → Fact m p
      → Served m (rest + on_its_way p)
      → Served (step monitor c m p).0 (rest + on_its_way (step monitor c m p).1)
  unfolding step
  step-Served c m (want wait) rest h s f v = ground (arith, lock_law m.state, failure_law m.state)
  step-Served c m p rest h s f v = ground (
    arith,
    lock_law m.state,
    failure_law m.state,
    unlock_law m.state,
    sleep_law m.state,
    wake_law m.state,
    expire_law m.state,
    signal_law m.state,
  )

  Fact-other :
      (c : Choice) (m : Shared monitor) (p q : Pc)
      → holding p + holding q ≤ 1
      → Fact m q
      → Fact (step monitor c m p).0 q
  unfolding step
  Fact-other c m (want wait) q z g = ground arith
  Fact-other c m p q z g = ground arith

  module _ {n : ℕ} {m : Shared monitor} {pc : ℕ → Pc} (inv : Inv n m pc) (i : ℕ) (c : Choice)
      (b : i < n) where
    open inv use {single, held, slept, exact, served, far, fact}

    abbrev next : Shared monitor × Pc
    next = step monitor c m (pc i)

    holding-le : holding (pc i) ≤ holders m.state
    holding-le = rw held (le-sum (λ j. holding (pc j)) n i b)

    sleeping-le : sleeping (pc i) ≤ sleepers m.state
    sleeping-le = rw slept (le-sum (λ j. sleeping (pc j)) n i b)

    moved : Moved m next.0 (pc i) next.1
    moved = step-Moved c m (pc i) single holding-le sleeping-le exact (fact i)

    -- At most one thread holds the mutex.
    one_holder : (j : ℕ) → i ≢ j → holding (pc i) + holding (pc j) ≤ 1
    one_holder j ne = elim (dec_lt j n) [
      | yes below ↦ omega (arith, single, held, two-le-sum (λ k. holding (pc k)) n i j b below ne)
      | no beyond ↦ rw (far j (omega arith)) (omega (arith, single, holding-le))
    ]

    move-Served : Served next.0 (sum (λ j. on_its_way (update pc i next.1 j)) n)
    move-Served h =
        let mine = le-sum (λ j. on_its_way (pc j)) n i b in
        let others : ℕ = sum (λ j. on_its_way (pc j)) n - on_its_way (pc i) in
        let before : Served m (others + on_its_way (pc i)) = λ l. omega (arith, served l, mine) in
        omega (
          arith,
          mine,
          sum-update on_its_way pc n i next.1 b,
          step-Served c m (pc i) others holding-le sleeping-le (fact i) before h,
        )

    move-Inv : Inv n next.0 (update pc i next.1)
    move-Inv = record {
      single = moved.single';
      held = omega (arith, moved.held', held, sum-update holding pc n i next.1 b);
      slept = omega (arith, moved.slept', slept, sum-update sleeping pc n i next.1 b);
      exact = moved.exact';
      served = move-Served;
      far = λ j h.
          update-cases (λ p. p ≡ idle) pc i next.1 j (λ e. absurd (omega arith)) (λ _. far j h);
      fact = λ j.
          update-cases (λ p. Fact next.0 p) pc i next.1 j (λ _. moved.fact')
            (λ ne. Fact-other c m (pc i) (pc j) (one_holder j ne) (fact j));
    }

  Inv-init : (n : ℕ) → Inv n (init monitor initial).mem (init monitor initial).pc
  Inv-init n = record {
    single = omega (arith, fresh_law);
    held = fresh_law.0 ∙ sym (sum-zero (λ i. 0) n (λ j. refl));
    slept = fresh_law.1 ∙ sym (sum-zero (λ i. 0) n (λ j. refl));
    exact = λ h. omega arith;
    served = λ h. omega (arith, fresh_law);
    far = λ i h. refl;
    fact = λ i. tt;
  }

  pub after-Inv :
      (n : ℕ) (ts : List (ℕ × Choice))
      → Inv n (after monitor initial n ts).mem (after monitor initial n ts).pc
  unfolding bounded_step
  after-Inv n ts =
      run-bounded (λ i. step monitor) n (Inv n) (λ i c m pc b inv. move-Inv inv i c b) ts
        (init monitor initial) (Inv-init n)
