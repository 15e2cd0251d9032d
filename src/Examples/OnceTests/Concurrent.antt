-- ===== src/Examples/OnceTests/Concurrent.antt =====
-- test_concurrent of examples/ccthread_once.c: `n` threads call ccthread_once on one control block, and
-- thread `n` is the one that creates and joins them. Every access to the block and to a shared variable
-- is one step.
pub mod Moves
pub mod Invariant
pub mod Safety
pub mod Local
pub mod Waking
pub mod Progress
mod Tests
use ccthread.Prelude.{
  ℕ, ◌+◌, Bool, true, false, ◌&&◌, List, ltb, ◌==◌, if◌then◌else◌, update, System, run,
}
use ccthread.Types.{Code, ok, failed, is_ok}
use ccthread.Once.Threads.{Block, once_init, Pc, idle, running, returned}
use ccthread.Once.Threads

pub data Place : Type 0 where
  unborn : Place  -- not created
  calling : (p : Pc) → Place  -- conc_worker, in `ccthread_once`
  storing : Place  -- before `ca->result = ...`
  returning : Place  -- before `return NULL`
  ended : Place
  creating : (i : ℕ) → Place  -- test_concurrent, before it creates thread `i`
  joining : (i passed : ℕ) → Place  -- before it joins thread `i`; `passed` is its variable `ok`
  reading : (i passed : ℕ) → Place  -- before `args[i].result == CCTHREAD_SUCCESS`
  comparing : (passed : ℕ) → Place  -- before it reads `s_init_count`
  again : (p : Pc) → Place  -- in its own call of `ccthread_once`
  comparing_again : Place  -- before it reads `s_init_count` for the last time
  answered : (result : Bool) → Place  -- the test returned 1 or 0

-- `once`, `s_init_count` and the fields `result` of `args`; how many threads were created, and which
-- of them have ended.
pub record Shared : Type 0 where
  pub block : Block
  pub s_init_count : ℕ
  pub result : ℕ → Code
  pub created : ℕ
  pub over : ℕ → Bool

abbrev pub is_returned : Pc → Bool
is_returned returned = true
is_returned p = false

-- `init_marker` runs while its caller is inside `func(arg)`.
abbrev pub mark_init : Pc → ℕ → ℕ
mark_init running k = k + 1
mark_init p k = k

-- The next access of thread `i` inside `ccthread_once`.
unfoldable pub once_step : ℕ → Shared → Pc → Shared × Pc
once_step i m p =
    let (block, p') = Threads.step i tt m.block p in
    (record m { block = block; s_init_count = mark_init p m.s_init_count }, p')

module _ (n prev_count : ℕ) where
  abbrev pub next_create : ℕ → Place
  next_create i = if ltb i n then creating i else joining 0 0

  abbrev pub next_join : ℕ → ℕ → Place
  next_join i passed = if ltb i n then joining i passed else comparing passed

  -- The next access of thread `i`. `does_create` says whether ccthread_create succeeds.
  unfoldable pub step : ℕ → Bool → Shared → Place → Shared × Place
  unfolding once_step
  step i does_create m unborn = (m, if ltb i m.created then calling idle else unborn)
  step i does_create m (calling p) =
      let (m', p') = once_step i m p in (m', if is_returned p' then storing else calling p')
  step i does_create m storing = (record m { result = update m.result i ok }, returning)
  step i does_create m returning = (record m { over = update m.over i true }, ended)
  step i does_create m ended = (m, ended)
  step i does_create m (creating k) =
      let m' = record m { result = update m.result k failed } in
      if does_create
      then (record m' { created = k + 1 }, next_create (k + 1))
      else (m', answered false)
  step i does_create m (joining k passed) =
      (m, if m.over k then reading k passed else joining k passed)
  step i does_create m (reading k passed) =
      (m, next_join (k + 1) (if is_ok (m.result k) then passed + 1 else passed))
  step i does_create m (comparing passed) = (
    m,
    if (m.s_init_count == prev_count + 1) && (passed == n) then again idle else answered false,
  )
  step i does_create m (again p) =
      let (m', p') = once_step i m p in (m', if is_returned p' then comparing_again else again p')
  step i does_create m comparing_again = (m, answered (m.s_init_count == prev_count + 1))
  step i does_create m (answered r) = (m, answered r)

  abbrev pub init : System Shared Place
  init = record {
    mem = record {
      block = once_init;
      s_init_count = prev_count;
      result = λ i. failed;
      created = 0;
      over = λ i. false;
    };
    pc = λ i. if i == n then next_create 0 else unborn;
  }

  abbrev pub after : List (ℕ × Bool) → System Shared Place
  after ts = run step ts init
