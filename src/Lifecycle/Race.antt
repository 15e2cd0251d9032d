-- ===== src/Lifecycle/Race.antt =====
-- The two threads that reach one `struct ccthread_impl` after ccthread_create: every access to the
-- struct is one step.
use ccthread.Prelude.{
  ℕ, ◌+◌, Bool, true, false, ◌||◌, Option, none, some, List, [], ◌∷◌, ltb, ◌==◌, if◌then◌else◌,
}
use ccthread.Types.{Platform, is_windows, Code, ok, failed}

-- The call that consumes the handle.
pub data Consumer : Type 0 where
  join detach : Consumer

-- The new thread, in ccthread_wrapper.
pub data ChildPc : Type 0 where
  begin : ChildPc  -- reads `func` and `arg`, writes `tid`
  work : ChildPc  -- in `func`, up to its return or to ccthread_exit
  finish : ChildPc  -- `ccatomic_store_release(&thread->finished, 1)`
  look : ChildPc  -- `ccatomic_load_acquire(&thread->detached)`
  claim : ChildPc  -- `ccatomic_exchange_acquire(&thread->cleanup_claimed, 1)`
  close : ChildPc  -- `if (thread->handle) CloseHandle(thread->handle)`, on Windows
  release : ChildPc  -- `free(thread)`
  ended : ChildPc

-- Its owner, in ccthread_join or ccthread_detach.
pub data OwnerPc : Type 0 where
  guard_detached : OwnerPc  -- the loads of the guard
  guard_joined : OwnerPc
  guard_self : OwnerPc
  wait : OwnerPc  -- `pthread_join` or `WaitForSingleObject`
  fetch : OwnerPc  -- `*result = thread->result`
  close_joined : OwnerPc  -- `CloseHandle(thread->handle); thread->handle = NULL`, on Windows
  mark_joined : OwnerPc  -- `ccatomic_store_release(&thread->joined, 1)`
  free_joined : OwnerPc  -- `free(thread)` of ccthread_join
  tell_os : OwnerPc  -- `pthread_detach`, or `CloseHandle` and `thread->handle = NULL`
  mark_detached : OwnerPc  -- `ccatomic_store_release(&thread->detached, 1)`
  look_finished : OwnerPc  -- `ccatomic_load_acquire(&thread->finished)`
  claim_cleanup : OwnerPc  -- `ccatomic_exchange_acquire(&thread->cleanup_claimed, 1)`
  free_detached : OwnerPc  -- `free(thread)` of ccthread_detach
  returned : Code → OwnerPc

-- The platform, the call that consumes the handle, the value that the thread function returns or passes
-- to ccthread_exit, whether the call passes a place for it, and whether the system call in ccthread_join
-- or ccthread_detach succeeds. Memory that was freed holds arbitrary values: `child_finds` and
-- `owner_finds` say what the accesses read there, each of which is made at most once.
pub record Config : Type 0 where
  pub platform : Platform
  pub consumer : Consumer
  pub value : ℕ
  pub wants_result : Bool
  pub os_ok : Bool
  pub child_finds : ChildPc → ℕ
  pub owner_finds : OwnerPc → ℕ

-- The fields of the struct, what the owner got, and a record of what happened to the allocation: how
-- often it was freed, how often its handle was closed, and whether it was used when already free.
pub record State : Type 0 where
  pub result : ℕ
  pub detached : ℕ
  pub joined : ℕ
  pub finished : ℕ
  pub cleanup_claimed : ℕ
  pub is_self : ℕ
  pub handle : ℕ
  pub got : Option ℕ
  pub frees : ℕ
  pub closes : ℕ
  pub used_free : Bool
  pub child : ChildPc
  pub owner : OwnerPc

-- As ccthread_create leaves it: a handle that is open, the rest zero.
abbrev pub created : State
created = record {
  result = 0;
  detached = 0;
  joined = 0;
  finished = 0;
  cleanup_claimed = 0;
  is_self = 0;
  handle = 1;
  got = none;
  frees = 0;
  closes = 0;
  used_free = false;
  child = begin;
  owner = guard_detached;
}

-- An access to the struct.
abbrev pub touch : State → State
touch s = record s { used_free = s.used_free || ltb 0 s.frees }

-- What it reads: the value of the field, or what is found in freed memory.
abbrev pub read : State → (field found : ℕ) → ℕ
read s field found = if ltb 0 s.frees then found else field

abbrev after_claim : Platform → ChildPc
after_claim p = if is_windows p then close else release

-- The next access of the new thread. ccthread_exit makes the same accesses as the end of the wrapper.
unfoldable pub child_step : Config → ChildPc → State → State
child_step cf begin s = record (touch s) { child = work }
child_step cf work s = record (touch s) { result = cf.value; child = finish }
child_step cf finish s = record (touch s) { finished = 1; child = look }
child_step cf look s = record (touch s) {
  child = if read s s.detached (cf.child_finds look) == 0 then ended else claim;
}
child_step cf claim s = record (touch s) {
  cleanup_claimed = 1;
  child =
      if read s s.cleanup_claimed (cf.child_finds claim) == 0
      then after_claim cf.platform
      else ended;
}
child_step cf close s = record (touch s) {
  closes = if read s s.handle (cf.child_finds close) == 0 then s.closes else s.closes + 1;
  child = release;
}
child_step cf release s = record s { frees = s.frees + 1; child = ended }
child_step cf ended s = s

abbrev pub consume : Consumer → OwnerPc
consume join = wait
consume detach = tell_os

abbrev has_ended : ChildPc → Bool
has_ended ended = true
has_ended _ = false

-- The next access of the owner. The wait of ccthread_join ends only when the thread has ended.
unfoldable pub owner_step : Config → OwnerPc → State → State
owner_step cf guard_detached s = record (touch s) {
  owner =
      if read s s.detached (cf.owner_finds guard_detached) == 0
      then guard_joined
      else returned failed;
}
owner_step cf guard_joined s = record (touch s) {
  owner =
      if read s s.joined (cf.owner_finds guard_joined) == 0 then guard_self else returned failed;
}
owner_step cf guard_self s = record (touch s) {
  owner =
      if read s s.is_self (cf.owner_finds guard_self) == 0
      then consume cf.consumer
      else returned failed;
}
owner_step cf wait s = record (touch s) {
  owner = if cf.os_ok then if has_ended s.child then fetch else wait else returned failed;
}
owner_step cf fetch s = record (touch s) {
  got = if cf.wants_result then some (read s s.result (cf.owner_finds fetch)) else s.got;
  owner = if is_windows cf.platform then close_joined else mark_joined;
}
owner_step cf close_joined s = record (touch s) {
  closes = s.closes + 1;
  handle = 0;
  owner = mark_joined;
}
owner_step cf mark_joined s = record (touch s) { joined = 1; owner = free_joined }
owner_step cf free_joined s = record s { frees = s.frees + 1; owner = returned ok }
owner_step cf tell_os s =
    if is_windows cf.platform
    then record (touch s) { closes = s.closes + 1; handle = 0; owner = mark_detached }
    else record (touch s) { owner = if cf.os_ok then mark_detached else returned failed }
owner_step cf mark_detached s = record (touch s) { detached = 1; owner = look_finished }
owner_step cf look_finished s = record (touch s) {
  owner =
      if read s s.finished (cf.owner_finds look_finished) == 0 then returned ok else claim_cleanup;
}
owner_step cf claim_cleanup s = record (touch s) {
  cleanup_claimed = 1;
  owner =
      if read s s.cleanup_claimed (cf.owner_finds claim_cleanup) == 0
      then free_detached
      else returned ok;
}
owner_step cf free_detached s = record s { frees = s.frees + 1; owner = returned ok }
owner_step cf (returned c) s = s

pub data Actor : Type 0 where
  child owner : Actor

unfoldable pub step : Config → Actor → State → State
unfolding child_step owner_step
step cf child s = child_step cf s.child s
step cf owner s = owner_step cf s.owner s

unfoldable pub run : Config → List Actor → State → State
run cf [] s = s
run cf (a ∷ ts) s = run cf ts (step cf a s)

-- What every step keeps holds after every schedule.
pub run-keeps :
    (cf : Config) (Keeps : State → Type 0)
    → ((a : Actor) (s : State) → Keeps s → Keeps (step cf a s))
    → (ts : List Actor) (s : State) → Keeps s
    → Keeps (run cf ts s)
unfolding run
run-keeps cf Keeps keep [] s k = k
run-keeps cf Keeps keep (a ∷ ts) s k = run-keeps cf Keeps keep ts (step cf a s) (keep a s k)
