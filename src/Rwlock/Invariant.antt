-- ===== src/Rwlock/Invariant.antt =====
-- Who holds a Windows read-write lock in which mode, and what `writer_tid` says about it.
use ccthread.Prelude.{
  ℕ, ◌+◌, ◌≤◌, ◌<◌, ◌≡◌, refl, sym, ◌≢◌, List, arith, update, update-cases, ◌∙◌, sum, sum-zero,
  sum-update, le-sum, two-le-sum, run-bounded, dec_lt,
}
use ccthread.Rwlock.Threads.{
  SrwLock, reader, writer, Pc, idle, own, inside, un_test, un_match, un_clear, un_exclusive,
  un_shared, Choice, read, Rw, step, init, bounded_step, after,
}

-- A thread's share in the two counts of the slim lock.
abbrev pub reads : Pc → ℕ
reads (inside reader) = 1
reads (un_test reader) = 1
reads (un_match reader) = 1
reads (un_shared reader) = 1
reads _ = 0

abbrev pub writes : Pc → ℕ
writes own = 1
writes (inside writer) = 1
writes (un_test writer) = 1
writes (un_match writer) = 1
writes (un_clear writer) = 1
writes (un_exclusive writer) = 1
writes _ = 0

module _ (srw : SrwLock) where
  open srw use {
    State, readers, writers, fresh_law, shared_law, exclusive_law, failure_law, release_shared_law,
    release_exclusive_law,
  }

  -- `writer_tid` is the id of a thread exactly while it is the writer; no reader is on its way to the
  -- exclusive release, and no writer on its way to the shared one.
  abbrev pub Fact : ℕ → Rw srw → Pc → Type 0
  Fact t m (inside writer) = m.writer_tid ≡ t
  Fact t m (un_test writer) = m.writer_tid ≡ t
  Fact t m (un_match writer) = m.writer_tid ≡ t
  Fact t m (un_clear writer) = m.writer_tid ≡ t
  Fact t m (un_clear reader) = ⊥
  Fact t m (un_exclusive reader) = ⊥
  Fact t m (un_shared writer) = ⊥
  Fact t m _ = m.writer_tid ≢ t

  pub record Modes (m : Rw srw) : Type 0 where
    pub single : writers m.lock ≤ 1
    pub exclusive : 0 < readers m.lock → writers m.lock ≡ 0

  pub record Inv (tid : ℕ → ℕ) (n : ℕ) (m : Rw srw) (pc : ℕ → Pc) : Type 0 where
    pub modes : Modes m
    pub shares : readers m.lock ≡ sum (λ i. reads (pc i)) n
    pub owners : writers m.lock ≡ sum (λ i. writes (pc i)) n
    pub far : (i : ℕ) → n ≤ i → pc i ≡ idle
    pub fact : (i : ℕ) → Fact (tid i) m (pc i)

  -- What one access does to the counts, and what the mover knows afterwards.
  record Moved (t : ℕ) (m m' : Rw srw) (p p' : Pc) : Type 0 where
    modes' : Modes m'
    shares' : readers m'.lock + reads p ≡ readers m.lock + reads p'
    owners' : writers m'.lock + writes p ≡ writers m.lock + writes p'
    fact' : Fact t m' p'

  step-Moved :
      (t : ℕ) (c : Choice) (m : Rw srw) (p : Pc)
      → t ≢ 0
      → Modes m
      → reads p ≤ readers m.lock
      → writes p ≤ writers m.lock
      → Fact t m p
      → Moved t m (step srw t c m p).0 p (step srw t c m p).1
  unfolding step
  step-Moved t read m idle z k r w f = ground arith
  step-Moved t c m p z k r w f = ground (
    arith,
    shared_law m.lock,
    exclusive_law m.lock,
    failure_law m.lock,
    release_shared_law m.lock,
    release_exclusive_law m.lock,
  )

  Fact-other :
      (t u : ℕ) (c : Choice) (m : Rw srw) (p q : Pc)
      → u ≢ 0
      → t ≢ u
      → writes p + writes q ≤ 1
      → Fact t m p
      → Fact u m q
      → Fact u (step srw t c m p).0 q
  unfolding step
  Fact-other t u read m idle q z n o f g = g
  Fact-other t u c m p q z n o f g = ground arith

  module _ (tid : ℕ → ℕ) (positive : (i : ℕ) → tid i ≢ 0)
      (distinct : (i j : ℕ) → tid i ≡ tid j → i ≡ j) {n : ℕ} {m : Rw srw} {pc : ℕ → Pc}
      (inv : Inv tid n m pc) (i : ℕ) (c : Choice) (b : i < n) where
    open inv use {modes, shares, owners, far, fact}

    abbrev next : Rw srw × Pc
    next = step srw (tid i) c m (pc i)

    reads-le : reads (pc i) ≤ readers m.lock
    reads-le = rw shares (le-sum (λ j. reads (pc j)) n i b)

    writes-le : writes (pc i) ≤ writers m.lock
    writes-le = rw owners (le-sum (λ j. writes (pc j)) n i b)

    moved : Moved (tid i) m next.0 (pc i) next.1
    moved = step-Moved (tid i) c m (pc i) (positive i) modes reads-le writes-le (fact i)

    -- At most one thread has the lock in exclusive mode.
    pub one_writer : (j : ℕ) → i ≢ j → writes (pc i) + writes (pc j) ≤ 1
    one_writer j ne = elim (dec_lt j n) [
      | yes below ↦
          omega (arith, modes.single, owners, two-le-sum (λ k. writes (pc k)) n i j b below ne)
      | no beyond ↦ rw (far j (omega arith)) (omega (arith, modes.single, writes-le))
    ]

    pub move-Inv : Inv tid n next.0 (update pc i next.1)
    move-Inv = record {
      modes = moved.modes';
      shares = omega (arith, moved.shares', shares, sum-update reads pc n i next.1 b);
      owners = omega (arith, moved.owners', owners, sum-update writes pc n i next.1 b);
      far = λ j h.
          update-cases (λ p. p ≡ idle) pc i next.1 j (λ e. absurd (omega arith)) (λ _. far j h);
      fact = λ j.
          update-cases (λ p. Fact (tid j) next.0 p) pc i next.1 j (λ e. rw (← e) moved.fact')
            (λ ne.
              Fact-other (tid i) (tid j) c m (pc i) (pc j) (positive j) (λ e. ne (distinct i j e))
                (one_writer j ne) (fact i) (fact j));
    }

  pub Inv-init :
      (tid : ℕ → ℕ) (n : ℕ) → ((i : ℕ) → tid i ≢ 0) → Inv tid n (init srw).mem (init srw).pc
  Inv-init tid n positive = record {
    modes = omega (arith, fresh_law);
    shares = fresh_law.0 ∙ sym (sum-zero (λ i. 0) n (λ j. refl));
    owners = fresh_law.1 ∙ sym (sum-zero (λ i. 0) n (λ j. refl));
    far = λ i h. refl;
    fact = λ i e. positive i (sym e);
  }

  pub after-Inv :
      (tid : ℕ → ℕ) (n : ℕ)
      → ((i : ℕ) → tid i ≢ 0)
      → ((i j : ℕ) → tid i ≡ tid j → i ≡ j)
      → (ts : List (ℕ × Choice)) → Inv tid n (after srw tid n ts).mem (after srw tid n ts).pc
  unfolding bounded_step
  after-Inv tid n positive distinct ts =
      run-bounded (λ i. step srw (tid i)) n (Inv tid n)
        (λ i c m pc b inv. move-Inv tid positive distinct inv i c b) ts (init srw)
        (Inv-init tid n positive)
