-- ===== src/Examples/Queue/Create.antt =====
-- queue_create and queue_destroy of examples/cccondvar_basic.c, as calls of the mutex and the condition
-- variables of the library.
use ccthread.Prelude.{ℕ, Option, none, some, ◌||◌, ◌==◌, if◌then◌else◌}
use ccthread.Types.{Platform, plain}
use ccthread.External.{Prog, pure, ◌>>=◌, ◌>>◌, call, alloc, free}
use ccthread.Mutex.Calls.{ccmutex_create, ccmutex_destroy}
use ccthread.Condvar.Calls.{cccondvar_create, cccondvar_destroy}

-- A `queue_t` that no other thread knows of: its address and its three pointers.
pub record Handles : Type 0 where
  pub address : ℕ
  pub mtx : ℕ
  pub not_full : ℕ
  pub not_empty : ℕ

-- The calls of `queue_destroy`, which the error path of `queue_create` makes too, for the pointers that
-- are not NULL.
unfoldable pub queue_destroy : Platform → Handles → Prog ℕ
queue_destroy platform q = do
  ccmutex_destroy platform q.mtx
  cccondvar_destroy platform q.not_full
  cccondvar_destroy platform q.not_empty
  call (free q.address)

unfoldable pub give_up : Platform → Handles → Prog (Option Handles)
give_up platform q = do
  if q.mtx == 0 then pure 0 else ccmutex_destroy platform q.mtx
  if q.not_full == 0 then pure 0 else cccondvar_destroy platform q.not_full
  if q.not_empty == 0 then pure 0 else cccondvar_destroy platform q.not_empty
  call (free q.address)
  pure none

unfoldable pub fill : Platform → ℕ → Prog Handles
fill platform q = do
  mtx ← ccmutex_create platform plain
  not_full ← cccondvar_create platform
  not_empty ← cccondvar_create platform
  pure (record { address = q; mtx = mtx; not_full = not_full; not_empty = not_empty })

unfoldable pub checked : Platform → Handles → Prog (Option Handles)
checked platform q =
    if (q.mtx == 0) || (q.not_full == 0) || (q.not_empty == 0)
    then give_up platform q
    else pure (some q)

-- The new queue, or `none` for NULL.
unfoldable pub queue_create : Platform → Prog (Option Handles)
queue_create platform = do
  q ← alloc
  if q == 0 then pure none else (do h ← fill platform q; checked platform h)
