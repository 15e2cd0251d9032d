-- ===== src/Mutex/Tests.antt =====
-- The theorems on mutexes at inputs that meet their hypotheses.
use ccthread.Prelude.{◌<◌, ◌≡◌, refl, some, [], ◌∷◌, arith}
use ccthread.Types.{linux, success}
use ccthread.External.{held, lock}
use ccthread.External.Samples.{clock, allocating, filled}
use ccthread.Mutex.Calls.{ccmutex_trylock, ccthread_yield, ccmutex_lock}
use ccthread.Mutex.Laws.{KeepsType, attempts, lock_acquires}

clock-KeepsType : KeepsType clock
clock-KeepsType n c h p = refl

-- The first attempt fails with 8, the next succeeds.
lock_acquires_example :
    (1 < 2
      → (ccmutex_trylock linux 7 allocating (attempts 1 linux 7 allocating (filled 0))).0 ≡ success
      → (ccmutex_lock 2 linux 7 allocating (filled 0)).0 ≡ some success)
    × ((ccmutex_lock 2 linux 7 allocating (filled 0)).0 ≡ some success
        → (success ≡ success)
          × (held (ccmutex_lock 2 linux 7 allocating (filled 0)).1.history ≡ (lock, 7) ∷ []))
lock_acquires_example = lock_acquires 1 2 linux 7 allocating (filled 0) success (λ e. omega arith)

second_attempt : (ccmutex_lock 2 linux 7 allocating (filled 0)).0 ≡ some success
unfolding ccmutex_trylock attempts ccthread_yield
second_attempt =
    (lock_acquires 1 2 linux 7 allocating (filled 0) success (λ e. omega arith)).0 (omega arith)
      refl
