-- ===== src/Examples/Polling.antt =====
-- examples/ccsem_timeout.c: poll_demo, and periodic_demo, whose loop returns the number of its attempts.
pub mod Laws
mod Tests
use ccthread.Prelude.{ℕ, zero, suc, ◌+◌, Option, none, some, leb, if◌then◌else◌}
use ccthread.Types.{Platform, Status, success, error, timeout}
use ccthread.External.{Prog, pure, ◌>>=◌, ◌>>◌}
use ccthread.Sem.Create.{ccsem_create, ccsem_destroy}
use ccthread.Sem.Native.{ccsem_trywait, ccsem_timedwait, ccsem_post}

-- The results of the two calls of ccsem_trywait.
unfoldable pub poll_demo : Platform → Prog (Status × Status)
poll_demo platform = do
  sem ← ccsem_create platform 0
  locked ← ccsem_trywait platform sem
  ccsem_post platform sem
  unlocked ← ccsem_trywait platform sem
  ccsem_destroy platform sem
  pure (locked, unlocked)

-- `while (ccsem_timedwait(sem, 10) == CCMUTEX_TIMEOUT)`, at most `rounds` times, each wait with the given
-- fuel. `none` says that `rounds` or the fuel of a wait ran out.
unfoldable pub periodic_loop : ℕ → ℕ → Platform → ℕ → ℕ → Prog (Option ℕ)
periodic_loop zero fuel platform sem attempts = pure none
periodic_loop (suc rounds) fuel platform sem attempts = do
  rc ← ccsem_timedwait fuel platform sem 10
  elim rc [
    | none ↦ pure none
    | some timeout ↦
        if leb 5 (attempts + 1)
        then pure (some (attempts + 1))
        else periodic_loop rounds fuel platform sem (attempts + 1)
    | some success ↦ pure (some attempts)
    | some error ↦ pure (some attempts)
  ]

unfoldable pub periodic_demo : ℕ → ℕ → Platform → Prog (Option ℕ)
periodic_demo rounds fuel platform = do
  sem ← ccsem_create platform 0
  attempts ← periodic_loop rounds fuel platform sem 0
  ccsem_destroy platform sem
  pure attempts
