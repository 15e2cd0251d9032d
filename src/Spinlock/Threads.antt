-- ===== src/Spinlock/Threads.antt =====
-- ccspinlock.c under any number of threads: every read and write of the struct is one step.
use ccthread.Prelude.{ℕ, suc, ◌+◌, ◌-◌, ◌^◌, List, ltb, ◌==◌, if◌then◌else◌, System, run}

-- `struct ccspinlock_impl`
pub record Spin : Type 0 where
  pub flag : ℕ
  pub owner_tid : ℕ
  pub recursion : ℕ

-- `ccspinlock_create`: `calloc` gives the struct in this state, for either value of `type`.
abbrev pub zeroed : Spin
zeroed = record { flag = 0; owner_tid = 0; recursion = 0 }

-- Where a thread stands. `d` counts the acquisitions that it has not released yet.
pub data Pc : Type 0 where
  idle : (d : ℕ) → Pc  -- outside the calls
  try_test : (d : ℕ) → Pc  -- `spin->owner_tid &&`
  try_match : (d : ℕ) → Pc  -- `spin->owner_tid == ccthread_gettid(NULL)`
  try_load : (d : ℕ) → Pc  -- the read of `spin->recursion++`
  try_store : (d r : ℕ) → Pc  -- its write
  try_swap : (d : ℕ) → Pc  -- `ccatomic_exchange_acquire(&spin->flag, 1)`
  try_owner : (d : ℕ) → Pc  -- `spin->owner_tid = ccthread_gettid(NULL)`
  try_depth : (d : ℕ) → Pc  -- `spin->recursion = 1`
  un_test : (d : ℕ) → Pc  -- `spin->recursion > 1`
  un_load : (d : ℕ) → Pc  -- the read of `spin->recursion--`
  un_store : (d r : ℕ) → Pc  -- its write
  un_owner : (d : ℕ) → Pc  -- `spin->owner_tid = 0`
  un_clear : (d : ℕ) → Pc  -- `spin->recursion = 0`
  un_flag : (d : ℕ) → Pc  -- `ccatomic_store_release(&spin->flag, 0)`
  overflow : (d : ℕ) → Pc  -- `recursion++` at `INT_MAX`, which is undefined: the thread stops

-- What a thread outside the calls does next.
pub data Choice : Type 0 where
  lock unlock : Choice

-- The accesses of `ccspinlock_trylock` and `ccspinlock_unlock` by the thread with OS thread id `t`.
-- `ccspinlock_lock` repeats `ccspinlock_trylock`: after a failed attempt the thread is `idle` again.
-- A client that holds nothing does not unlock, as ccmutex.h requires.
unfoldable pub step : ℕ → Choice → Spin → Pc → Spin × Pc
step t lock m (idle d) = (m, try_test d)
step t unlock m (idle d) = (m, if ltb 0 d then un_test d else idle d)
step t c m (try_test d) = (m, if m.owner_tid == 0 then try_swap d else try_match d)
step t c m (try_match d) = (m, if m.owner_tid == t then try_load d else try_swap d)
step t c m (try_load d) = (m, try_store d m.recursion)
step t c m (try_store d r) =
    if ltb (r + 1) (2 ^ 31) then (record m { recursion = r + 1 }, idle (suc d)) else (m, overflow d)
step t c m (try_swap d) = (record m { flag = 1 }, if m.flag == 0 then try_owner d else idle d)
step t c m (try_owner d) = (record m { owner_tid = t }, try_depth d)
step t c m (try_depth d) = (record m { recursion = 1 }, idle (suc d))
step t c m (un_test d) = (m, if ltb 1 m.recursion then un_load d else un_owner d)
step t c m (un_load d) = (m, un_store d m.recursion)
step t c m (un_store d r) = (record m { recursion = r - 1 }, idle (d - 1))
step t c m (un_owner d) = (record m { owner_tid = 0 }, un_clear d)
step t c m (un_clear d) = (record m { recursion = 0 }, un_flag d)
step t c m (un_flag d) = (record m { flag = 0 }, idle (d - 1))
step t c m (overflow d) = (m, overflow d)

abbrev pub init : System Spin Pc
init = record { mem = zeroed; pc = λ _. idle 0 }

-- Any schedule of any number of threads; `tid i` is what `ccthread_gettid(NULL)` gives in thread `i`.
abbrev pub after : (ℕ → ℕ) → List (ℕ × Choice) → System Spin Pc
after tid ts = run (λ i. step (tid i)) ts init
