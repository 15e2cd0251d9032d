-- ===== src/Rwlock/Samples.antt =====
-- A slim lock, and thread ids, for the tests.
use ccthread.Prelude.{
  ℕ, ◌+◌, ◌-◌, ◌≡◌, refl, ◌≢◌, true, false, Bool, arith, ◌==◌, ◌&&◌, if◌then◌else◌,
}
use ccthread.Rwlock.Threads.{SrwLock}

-- A slim lock as two counters.
abbrev pub try_read : ℕ × ℕ → Bool × (ℕ × ℕ)
try_read (r, w) = if w == 0 then (true, (r + 1, w)) else (false, (r, w))

abbrev pub try_write : ℕ × ℕ → Bool × (ℕ × ℕ)
try_write (r, w) = if (r == 0) && (w == 0) then (true, (0, 1)) else (false, (r, w))

pub counters_shared :
    (s : ℕ × ℕ)
    → (try_read s).0 ≡ true
    → (s.1 ≡ 0) × ((try_read s).1.0 ≡ s.0 + 1) × ((try_read s).1.1 ≡ 0)
counters_shared (r, w) h = ground arith

pub counters_exclusive :
    (s : ℕ × ℕ)
    → (try_write s).0 ≡ true
    → (s.1 ≡ 0) × (s.0 ≡ 0) × ((try_write s).1.0 ≡ 0) × ((try_write s).1.1 ≡ 1)
counters_exclusive (r, w) h = ground arith

pub counters_failure :
    (s : ℕ × ℕ)
    → ((try_read s).0 ≡ false → (try_read s).1 ≡ s)
      × ((try_write s).0 ≡ false → (try_write s).1 ≡ s)
counters_failure (r, w) = (λ h. ground arith, λ h. ground arith)

abbrev pub counters : SrwLock
counters = record {
  State = ℕ × ℕ;
  fresh = (0, 0);
  readers = λ s. s.0;
  writers = λ s. s.1;
  try_shared = try_read;
  try_exclusive = try_write;
  release_shared = λ s. (s.0 - 1, s.1);
  release_exclusive = λ s. (s.0, s.1 - 1);
  fresh_law = (refl, refl);
  shared_law = counters_shared;
  exclusive_law = counters_exclusive;
  failure_law = counters_failure;
  release_shared_law = λ s h. (omega arith, refl);
  release_exclusive_law = λ s h. (omega arith, refl);
}

abbrev pub tid : ℕ → ℕ
tid i = 100 + i

pub tid_positive : (i : ℕ) → tid i ≢ 0
tid_positive i e = omega arith

pub tid_distinct : (i j : ℕ) → tid i ≡ tid j → i ≡ j
tid_distinct i j e = omega arith
