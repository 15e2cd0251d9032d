-- ===== src/Examples/LifecycleTests.antt =====
-- examples/ccthread_lifecycle.c: test_self_identity, whose two threads share a struct, and the calls of
-- test_error_paths on the thread's own handle and on NULL.
pub mod Laws
pub mod Stress
mod Tests
use ccthread.Prelude.{ℕ, Bool, true, false, List, [], ◌∷◌, Option}
use ccthread.Types.{Platform, Code}
use ccthread.External.{Env, World, Prog, pure, ◌>>=◌, ◌>>◌}
use ccthread.Thread.Create.{ccthread_join, ccthread_detach}
use ccthread.Thread.Identity.{ccthread_self, ccthread_equal}

-- The thread function `equal_worker`, after its call of ccthread_self.
pub data Worker : Type 0 where
  compare_handles : Worker  -- the read of `ctx->expected`
  set_equal : (seen : ℕ) → Worker  -- `ctx->equal = ccthread_equal(...)`
  set_done : Worker  -- `ctx->done = 1`
  ended : Worker

-- `test_self_identity`, after ccthread_create has returned.
pub data Main : Type 0 where
  share : Main  -- `ctx.expected = th`
  join : Main  -- `ccthread_join(th, &ret)`
  check : Main  -- the last two tests

-- `ctx`, and the two threads
pub record State : Type 0 where
  pub expected : ℕ
  pub equal : ℕ
  pub done : ℕ
  pub worker : Worker
  pub main : Main

pub data Actor : Type 0 where
  worker_turn main_turn : Actor

-- `th` is the handle that ccthread_create returned, which is also the handle that ccthread_self gives
-- in the new thread, on a compiler with thread-local variables. The comparison is made in the world `w`.
module _ (platform : Platform) (env : Env) (w : World) (th : ℕ) where
  unfoldable pub worker_step : Worker → State → State
  worker_step compare_handles s = record s { worker = set_equal s.expected }
  worker_step (set_equal seen) s = record s {
    equal = (ccthread_equal platform seen th env w).0;
    worker = set_done;
  }
  worker_step set_done s = record s { done = 1; worker = ended }
  worker_step ended s = s

  -- Joining waits for the worker.
  unfoldable pub main_step : Main → State → State
  main_step share s = record s { expected = th; main = join }
  main_step join s = elim s.worker [ ended ↦ record s { main = check } | _ ↦ s ]
  main_step check s = s

  unfoldable pub step : Actor → State → State
  unfolding worker_step main_step
  step worker_turn s = worker_step s.worker s
  step main_turn s = main_step s.main s

  abbrev pub start : State
  start = record { expected = 0; equal = 0; done = 0; worker = compare_handles; main = share }

  unfoldable pub run : List Actor → State → State
  run [] s = s
  run (a ∷ ts) s = run ts (step a s)

-- The results of the second, third and fifth block of `test_error_paths`.
pub record Outcomes : Type 0 where
  pub me : ℕ
  pub join_self : Code
  pub detach_self : Code
  pub join_null : Code
  pub detach_null : Code
  pub first : ℕ
  pub second : ℕ

-- Run by the main thread, whose `ccthread_self_ptr` is NULL at first.
unfoldable pub test_error_paths : Platform → Bool → Prog Outcomes
test_error_paths platform has_tls = do
  self ← ccthread_self platform has_tls 0
  join_self ← ccthread_join platform self.0 false
  detach_self ← ccthread_detach platform self.0
  join_null ← ccthread_join platform 0 false
  detach_null ← ccthread_detach platform 0
  a ← ccthread_self platform has_tls self.1
  b ← ccthread_self platform has_tls a.1
  pure (record {
    me = self.0;
    join_self = join_self.0;
    detach_self = detach_self;
    join_null = join_null.0;
    detach_null = detach_null;
    first = a.0;
    second = b.0;
  })
