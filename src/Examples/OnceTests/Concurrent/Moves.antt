-- ===== src/Examples/OnceTests/Concurrent/Moves.antt =====
-- The accesses of test_concurrent one at a time: what holds at each place, and what an access keeps.
use ccthread.Prelude.{
  ℕ, ◌+◌, ◌≤◌, ◌<◌, ◌≡◌, refl, ◌≢◌, ◌⊎◌, inl, inr, Bool, true, arith, if◌then◌else◌,
}
use ccthread.Types.{ok}
use ccthread.Once.Threads.{
  Block, Pc, idle, look, swap, pause, restore, enter, running, mark, returned,
}
use ccthread.Once.Threads
use ccthread.Once.Invariant
use ccthread.Once.Invariant.{Counts}
use ccthread.Examples.OnceTests.Concurrent.{
  Place, unborn, calling, storing, returning, ended, creating, joining, reading, comparing, again,
  comparing_again, answered, Shared, is_returned, once_step, step,
}

-- The place of a thread in ccthread_once.
abbrev pub once_place : Place → Pc
once_place unborn = idle
once_place (calling p) = p
once_place storing = returned
once_place returning = returned
once_place ended = returned
once_place (again p) = p
once_place comparing_again = returned
once_place (answered true) = returned
once_place _ = idle

module _ (n prev : ℕ) where
  -- What holds of thread `i` at its place.
  abbrev pub At : ℕ → Shared → Place → Type 0
  At i m unborn = i ≢ n
  At i m (calling p) = (i < m.created) × (p ≢ returned)
  At i m storing = i < m.created
  At i m returning = (i < m.created) × (m.result i ≡ ok)
  At i m ended = (i < m.created) × (m.result i ≡ ok) × (m.over i ≡ true)
  At i m (creating k) = (i ≡ n) × (k < n) × (m.created ≡ k)
  At i m (joining k passed) =
      (i ≡ n) × (k < n) × (m.created ≡ n) × (passed ≡ k) × ((k ≡ 0) ⊎ (m.block.finished ≡ 1))
  At i m (reading k passed) = (i ≡ n) × (k < n) × (m.created ≡ n) × (passed ≡ k) × (m.over k ≡ true)
  At i m (comparing passed) = (i ≡ n) × (m.created ≡ n) × (passed ≡ n) × (m.block.finished ≡ 1)
  At i m (again p) = (i ≡ n) × (m.created ≡ n) × (m.block.finished ≡ 1) × (p ≢ returned)
  At i m comparing_again = (i ≡ n) × (m.created ≡ n) × (m.block.finished ≡ 1)
  At i m (answered r) = (i ≡ n) × ((m.created < n) ⊎ ((r ≡ true) × (m.block.finished ≡ 1)))

  called : (p : Pc) → once_place (if is_returned p then storing else calling p) ≡ p
  called p = ground arith

  called_again : (p : Pc) → once_place (if is_returned p then comparing_again else again p) ≡ p
  called_again p = ground arith

  -- An access of the test is one of ccthread_once, or leaves the block alone.
  pub once-moves :
      (i : ℕ) (c : Bool) (m : Shared) (q : Place)
      → At i m q
      → m.s_init_count ≡ prev + m.block.finished
      → (((step n prev i c m q).0.block ≡ (Threads.step i tt m.block (once_place q)).0)
          × (once_place (step n prev i c m q).1 ≡ (Threads.step i tt m.block (once_place q)).1))
        ⊎ (((step n prev i c m q).0.block ≡ m.block)
            × (once_place (step n prev i c m q).1 ≡ once_place q))
  unfolding step once_step
  once-moves i c m (calling p) a k = inl (refl, called (Threads.step i tt m.block p).1)
  once-moves i c m (again p) a k = inl (refl, called_again (Threads.step i tt m.block p).1)
  once-moves i c m unborn a k = inr (ground arith)
  once-moves i c m storing a k = inr (refl, refl)
  once-moves i c m returning a k = inr (refl, refl)
  once-moves i c m ended a k = inr (refl, refl)
  once-moves i c m (creating j) a k = inr (ground arith)
  once-moves i c m (joining j passed) a k = inr (ground arith)
  once-moves i c m (reading j passed) a k = inr (ground arith)
  once-moves i c m (comparing passed) a k = inr (ground arith)
  once-moves i c m comparing_again a k = inr (ground arith)
  once-moves i c m (answered r) a k = inr (refl, refl)

  -- A count of 1 stays.
  pub finished-step :
      (i : ℕ) (m : Block) (p : Pc)
      → Invariant.Fact m p
      → m.finished ≡ 1
      → (Threads.step i tt m p).0.finished ≡ 1
  unfolding Threads.step
  finished-step i m idle f e = e
  finished-step i m p f e = ground arith

  counted-once :
      (i : ℕ) (m : Shared) (p : Pc)
      → m.s_init_count ≡ prev + m.block.finished
      → (once_step i m p).0.s_init_count ≡ prev + (once_step i m p).0.block.finished
  unfolding once_step Threads.step
  counted-once i m idle k = k
  counted-once i m p k = ground arith

  pub counted-step :
      (i : ℕ) (c : Bool) (m : Shared) (q : Place)
      → m.s_init_count ≡ prev + m.block.finished
      → (step n prev i c m q).0.s_init_count ≡ prev + (step n prev i c m q).0.block.finished
  unfolding step
  counted-step i c m (calling p) k = counted-once i m p k
  counted-step i c m (again p) k = counted-once i m p k
  counted-step i c m (creating j) k = ground arith
  counted-step i c m unborn k = k
  counted-step i c m storing k = k
  counted-step i c m returning k = k
  counted-step i c m ended k = k
  counted-step i c m (joining j passed) k = k
  counted-step i c m (reading j passed) k = k
  counted-step i c m (comparing passed) k = k
  counted-step i c m comparing_again k = k
  counted-step i c m (answered r) k = k

  called-At :
      (i : ℕ) (m : Shared) (p : Pc)
      → i < m.created
      → At i m (if is_returned p then storing else calling p)
  called-At i m p b = ground arith

  called_again-At :
      (i : ℕ) (m : Shared) (p : Pc)
      → (i ≡ n) × (m.created ≡ n) × (m.block.finished ≡ 1)
      → At i m (if is_returned p then comparing_again else again p)
  called_again-At i m p a = ground arith

  pub At-self :
      (i : ℕ) (c : Bool) (m : Shared) (q : Place)
      → m.s_init_count ≡ prev + m.block.finished
      → ((k : ℕ) → m.over k ≡ true → (m.result k ≡ ok) × (m.block.finished ≡ 1))
      → Invariant.Fact m.block (once_place q)
      → At i m q
      → At i (step n prev i c m q).0 (step n prev i c m q).1
  unfolding step once_step
  At-self i c m unborn k o f a = ground arith
  At-self i c m (calling p) k o f (b, r) = called-At i (once_step i m p).0 (once_step i m p).1 b
  At-self i c m storing k o f a = (a, ground arith)
  At-self i c m returning k o f a = ground arith
  At-self i c m ended k o f a = a
  At-self i c m (creating j) k o f a = ground arith
  At-self i c m (joining j passed) k o f a = ground arith
  At-self i c m (reading j passed) k o f a = ground (arith, o j)
  At-self i c m (comparing passed) k o f a = ground arith
  At-self i c m (again p) k o f (b, d, e, r) =
      called_again-At i (once_step i m p).0 (once_step i m p).1
        (b, d, finished-step i m.block p f e)
  At-self i c m comparing_again k o f a = ground arith
  At-self i c m (answered r) k o f a = a

  -- What an access of thread `i` does not take from thread `j`.
  pub record Later (i j : ℕ) (m m' : Shared) : Type 0 where
    pub grows : m.created ≤ m'.created
    pub alone : i ≢ n → m'.created ≡ m.created
    pub same : j < m.created → m'.result j ≡ m.result j
    pub gone_on : (k : ℕ) → m.over k ≡ true → m'.over k ≡ true
    pub stays : m.block.finished ≡ 1 → m'.block.finished ≡ 1

  Later-once :
      (i j : ℕ) (m : Shared) (p : Pc) → Invariant.Fact m.block p → Later i j m (once_step i m p).0
  unfolding once_step
  Later-once i j m p f = record {
    grows = omega arith;
    alone = λ e. refl;
    same = λ e. refl;
    gone_on = λ k e. e;
    stays = finished-step i m.block p f;
  }

  Later-refl : (i j : ℕ) (m : Shared) → Later i j m m
  Later-refl i j m = record {
    grows = omega arith;
    alone = λ e. refl;
    same = λ e. refl;
    gone_on = λ k e. e;
    stays = λ e. e;
  }

  pub Later-step :
      (i j : ℕ) (c : Bool) (m : Shared) (q : Place)
      → i ≢ j
      → Invariant.Fact m.block (once_place q)
      → At i m q
      → Later i j m (step n prev i c m q).0
  unfolding step
  Later-step i j c m (calling p) d f a = Later-once i j m p f
  Later-step i j c m (again p) d f a = Later-once i j m p f
  Later-step i j c m storing d f a = record {
    grows = omega arith;
    alone = λ e. refl;
    same = λ b. ground arith;
    gone_on = λ k e. e;
    stays = λ e. e;
  }
  Later-step i j c m returning d f a = record {
    grows = omega arith;
    alone = λ e. refl;
    same = λ b. refl;
    gone_on = λ k e. ground arith;
    stays = λ e. e;
  }
  Later-step i j c m (creating k) d f a = record {
    grows = ground arith;
    alone = λ e. absurd (e a.0);
    same = λ b. ground arith;
    gone_on = λ k e. ground arith;
    stays = λ e. ground arith;
  }
  Later-step i j c m q d f a = Later-refl i j m

  pub At-other :
      (i j : ℕ) (m m' : Shared) (r : Place) → i ≢ j → Later i j m m' → At j m r → At j m' r
  At-other i j m m' unborn d l b = b
  At-other i j m m' (calling p) d l b = ground (arith, l.grows)
  At-other i j m m' storing d l b = omega (arith, l.grows)
  At-other i j m m' returning d l b = ground (arith, l.grows, l.same)
  At-other i j m m' ended d l b = ground (arith, l.grows, l.same, l.gone_on j)
  At-other i j m m' (creating k) d l b = ground (arith, l.alone)
  At-other i j m m' (joining k passed) d l b = ground (arith, l.alone, l.stays)
  At-other i j m m' (reading k passed) d l b = ground (arith, l.alone, l.gone_on k)
  At-other i j m m' (comparing passed) d l b = ground (arith, l.alone, l.stays)
  At-other i j m m' (again p) d l b = ground (arith, l.alone, l.stays)
  At-other i j m m' comparing_again d l b = ground (arith, l.alone, l.stays)
  At-other i j m m' (answered r) d l b = ground (arith, l.alone, l.stays)
