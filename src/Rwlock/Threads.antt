-- ===== src/Rwlock/Threads.antt =====
-- ccrwlock.c on Windows under `n` threads: SRWLOCK is what its documentation says, and every access to
-- `writer_tid` is one step.
use ccthread.Prelude.{
  ℕ, ◌+◌, ◌≡◌, ◌<◌, Bool, true, false, List, ltb, ◌==◌, if◌then◌else◌, System, run,
}

-- A slim read-write lock: how many threads hold it in shared and in exclusive mode, the calls that try
-- to take it, and the releases. A release by no holder is undefined and has no law.
pub record SrwLock : Type 1 where
  pub State : Type 0
  pub fresh : State
  pub readers : State → ℕ
  pub writers : State → ℕ
  pub try_shared : State → Bool × State
  pub try_exclusive : State → Bool × State
  pub release_shared : State → State
  pub release_exclusive : State → State
  pub fresh_law : (readers fresh ≡ 0) × (writers fresh ≡ 0)
  pub shared_law :
      (s : State)
      → (try_shared s).0 ≡ true
      → (writers s ≡ 0)
        × (readers (try_shared s).1 ≡ readers s + 1)
        × (writers (try_shared s).1 ≡ 0)
  pub exclusive_law :
      (s : State)
      → (try_exclusive s).0 ≡ true
      → (writers s ≡ 0)
        × (readers s ≡ 0)
        × (readers (try_exclusive s).1 ≡ 0)
        × (writers (try_exclusive s).1 ≡ 1)
  pub failure_law :
      (s : State)
      → ((try_shared s).0 ≡ false → (try_shared s).1 ≡ s)
        × ((try_exclusive s).0 ≡ false → (try_exclusive s).1 ≡ s)
  pub release_shared_law :
      (s : State)
      → 0 < readers s
      → (readers (release_shared s) + 1 ≡ readers s) × (writers (release_shared s) ≡ writers s)
  pub release_exclusive_law :
      (s : State)
      → 0 < writers s
      → (writers (release_exclusive s) + 1 ≡ writers s)
        × (readers (release_exclusive s) ≡ readers s)

-- The mode in which a thread took the lock that it is going to release.
pub data Mode : Type 0 where
  reader writer : Mode

pub data Pc : Type 0 where
  idle : Pc
  want_read : Pc  -- `AcquireSRWLockShared`, or its try form
  want_write : Pc  -- `AcquireSRWLockExclusive`, or its try form
  own : Pc  -- `rw->writer_tid = ccthread_gettid(NULL)`
  inside : Mode → Pc  -- between the locking call and ccrwlock_unlock
  un_test : Mode → Pc  -- `rw->writer_tid &&`
  un_match : Mode → Pc  -- `rw->writer_tid == ccthread_gettid(NULL)`
  un_clear : Mode → Pc  -- `rw->writer_tid = 0`
  un_exclusive : Mode → Pc  -- `ReleaseSRWLockExclusive`
  un_shared : Mode → Pc  -- `ReleaseSRWLockShared`

-- What a thread that holds nothing does next. A failed attempt leads back to `idle`: the blocking
-- calls are repeated attempts.
pub data Choice : Type 0 where
  read write : Choice

module _ (srw : SrwLock) where
  open srw use {State, fresh, try_shared, try_exclusive, release_shared, release_exclusive}

  pub record Rw : Type 0 where
    pub lock : State
    pub writer_tid : ℕ

  unfoldable pub step : ℕ → Choice → Rw → Pc → Rw × Pc
  step t read m idle = (m, want_read)
  step t write m idle = (m, want_write)
  step t c m want_read = (
    record m { lock = (try_shared m.lock).1 },
    if (try_shared m.lock).0 then inside reader else idle,
  )
  step t c m want_write =
      (record m { lock = (try_exclusive m.lock).1 }, if (try_exclusive m.lock).0 then own else idle)
  step t c m own = (record m { writer_tid = t }, inside writer)
  step t c m (inside k) = (m, un_test k)
  step t c m (un_test k) = (m, if m.writer_tid == 0 then un_shared k else un_match k)
  step t c m (un_match k) = (m, if m.writer_tid == t then un_clear k else un_shared k)
  step t c m (un_clear k) = (record m { writer_tid = 0 }, un_exclusive k)
  step t c m (un_exclusive k) = (record m { lock = release_exclusive m.lock }, idle)
  step t c m (un_shared k) = (record m { lock = release_shared m.lock }, idle)

  abbrev pub init : System Rw Pc
  init = record { mem = record { lock = fresh; writer_tid = 0 }; pc = λ _. idle }

  -- Only the first `n` threads move.
  unfoldable pub bounded_step : (ℕ → ℕ) → ℕ → ℕ → Choice → Rw → Pc → Rw × Pc
  bounded_step tid n i c m p = if ltb i n then step (tid i) c m p else (m, p)

  abbrev pub after : (ℕ → ℕ) → ℕ → List (ℕ × Choice) → System Rw Pc
  after tid n ts = run (bounded_step tid n) ts init
