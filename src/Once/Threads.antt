-- ===== src/Once/Threads.antt =====
-- ccthread_once under any number of threads that share one control block: every access to the block
-- is one step.
use ccthread.Prelude.{ℕ, ◌+◌, List, ltb, ◌==◌, if◌then◌else◌, System, run}

-- The control block, with counts of how often `func(arg)` was entered and how often it returned.
pub record Block : Type 0 where
  pub once : ℕ
  pub started : ℕ
  pub finished : ℕ

-- `CCTHREAD_ONCE_INIT`
abbrev pub once_init : Block
once_init = record { once = 0; started = 0; finished = 0 }

pub data Pc : Type 0 where
  idle : Pc  -- before its first call
  look : Pc  -- `ccatomic_load_acquire(once) < 2`
  swap : Pc  -- `ccatomic_exchange_acquire(once, 1)`
  restore : Pc  -- `prev == 2`: before `ccatomic_store_release(once, 2)` and `break`
  pause : Pc  -- `prev != 0`: `ccatomic_pause()` and `continue`
  enter : Pc  -- before `func(arg)`
  running : Pc  -- inside it
  mark : Pc  -- before the `ccatomic_store_release(once, 2)` after it
  returned : Pc  -- the call returned `CCTHREAD_SUCCESS`

-- The next access of a thread. A thread that has returned calls again. The thread id and the choice
-- of the client play no part.
unfoldable pub step : ℕ → Unit {0} → Block → Pc → Block × Pc
step i c m idle = (m, look)
step i c m look = (m, if ltb m.once 2 then swap else returned)
step i c m swap =
    (record m { once = 1 }, if m.once == 2 then restore else if m.once == 0 then enter else pause)
step i c m restore = (record m { once = 2 }, returned)
step i c m pause = (m, look)
step i c m enter = (record m { started = m.started + 1 }, running)
step i c m running = (record m { finished = m.finished + 1 }, mark)
step i c m mark = (record m { once = 2 }, look)
step i c m returned = (m, look)

abbrev pub init : System Block Pc
init = record { mem = once_init; pc = λ _. idle }

abbrev pub after : List (ℕ × Unit {0}) → System Block Pc
after ts = run step ts init
