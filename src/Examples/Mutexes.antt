-- ===== src/Examples/Mutexes.antt =====
-- examples/ccmutex_basic.c: main, in its two halves. `none` says that the fuel of a lock ran out.
pub mod Laws
mod Tests
use ccthread.Prelude.{ℕ, Option, none, some, List, [], ◌∷◌, ◌++◌, ◌==◌, if◌then◌else◌}
use ccthread.Types.{Platform, Status, success, plain, recursive, is_success}
use ccthread.External.{Prog, pure, ◌>>=◌, ◌>>◌}
use ccthread.Mutex.Calls.{
  ccmutex_create, ccmutex_lock, ccmutex_trylock, ccmutex_unlock, ccmutex_destroy,
}

-- What main returns, if it returns here, and the results of its calls of ccmutex_trylock.
pub data Outcome : Type 0 where
  fails : Outcome
  goes_on : (results : List Status) → Outcome

-- `if (rc == CCMUTEX_SUCCESS) ccmutex_unlock(mtx);` after a call of ccmutex_trylock
unfoldable pub try_and_unlock : Platform → ℕ → Prog Status
try_and_unlock platform mtx = do
  rc ← ccmutex_trylock platform mtx
  if is_success rc then (do ccmutex_unlock platform mtx; pure rc) else pure rc

-- What follows the lock of the plain mutex.
unfoldable pub plain_locked : Platform → ℕ → Option Status → Prog (Option Outcome)
plain_locked platform mtx none = pure none
plain_locked platform mtx (some success) = do
  locked ← ccmutex_trylock platform mtx
  ccmutex_unlock platform mtx
  unlocked ← try_and_unlock platform mtx
  ccmutex_destroy platform mtx
  pure (some (goes_on (locked ∷ unlocked ∷ [])))
plain_locked platform mtx (some rc) = do ccmutex_destroy platform mtx; pure (some fails)

unfoldable pub plain_half : ℕ → Platform → Prog (Option Outcome)
plain_half fuel platform = do
  mtx ← ccmutex_create platform plain
  if mtx == 0
      then pure (some fails)
      else (do rc ← ccmutex_lock fuel platform mtx; plain_locked platform mtx rc)

-- What follows the lock of the recursive mutex, whose result main ignores.
unfoldable pub recursive_locked : Platform → ℕ → Option Status → Prog (Option Outcome)
recursive_locked platform mtx none = pure none
recursive_locked platform mtx (some rc) = do
  again ← try_and_unlock platform mtx
  ccmutex_unlock platform mtx
  ccmutex_destroy platform mtx
  pure (some (goes_on (again ∷ [])))

unfoldable pub recursive_half : ℕ → Platform → Prog (Option Outcome)
recursive_half fuel platform = do
  mtx ← ccmutex_create platform recursive
  if mtx == 0
      then pure (some fails)
      else (do rc ← ccmutex_lock fuel platform mtx; recursive_locked platform mtx rc)
