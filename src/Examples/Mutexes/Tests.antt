-- ===== src/Examples/Mutexes/Tests.antt =====
-- main of examples/ccmutex_basic.c on a concrete system.
use ccthread.Prelude.{ℕ, ◌≡◌, refl, some, [], ◌∷◌, ◌==◌, if◌then◌else◌}
use ccthread.Types.{linux, success, error}
use ccthread.External.{Env, Call, calloc, mutex_trylock}
use ccthread.External.Samples.{quiet, filled}
use ccthread.Mutex.Calls.{
  ccmutex_create, ccmutex_lock, lock_loop, ccmutex_trylock, ccmutex_unlock, ccmutex_destroy,
}
use ccthread.Examples.Mutexes.{goes_on, try_and_unlock, plain_locked, plain_half}

-- The second attempt on the mutex finds it busy.
abbrev answers : ℕ → Call → ℕ
answers n calloc = 8
answers n (mutex_trylock p) = if n == 3 then 16 else 0
answers n c = 0

abbrev honest : Env
honest = record quiet { answer = answers }

results : (plain_half 1 linux honest (filled 0)).0 ≡ some (goes_on (error ∷ success ∷ []))
unfolding plain_half plain_locked try_and_unlock ccmutex_create ccmutex_lock lock_loop
    ccmutex_trylock ccmutex_unlock ccmutex_destroy
results = refl
