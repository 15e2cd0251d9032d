-- ===== src/Lifecycle/Stages.antt =====
-- The owner's accesses in ccthread_detach, made alone: the state after the guard, after the system call
-- and the store of `detached`, and after the last ones.
use ccthread.Prelude.{ℕ, ◌+◌, ◌≡◌, ◌∙◌, ap, ℕ_discrete, true, false, arith, ◌==◌, if◌then◌else◌}
use ccthread.Types.{is_windows, ok, failed}
use ccthread.External.{World}
use ccthread.Lifecycle.Race.{
  ChildPc, OwnerPc, guard_detached, guard_joined, guard_self, tell_os, look_finished, claim_cleanup,
  returned, Config, State, touch, consume, owner_step, step, run,
}
use ccthread.Lifecycle.Alone.{finds, seen, owners, IsConsumable}

-- The accesses of the guard that lets a handle through.
pub guard-run :
    (cf : Config) (child : ChildPc) (p : ℕ) (w : World)
    → ((o : OwnerPc) → cf.owner_finds o ≡ finds p w o)
    → IsConsumable p w
    → run cf (owners 3) (seen child p w)
      ≡ record (touch (touch (touch (seen child p w)))) { owner = consume cf.consumer }
unfolding run step owner_step
guard-run cf child p w f (d, j, s) = ground (arith, f guard_detached, f guard_joined, f guard_self)

-- The last accesses of ccthread_detach, from the load of `finished` on.
abbrev pub look_end : State → State
look_end s =
    if s.finished == 0
    then record (touch s) { owner = returned ok }
    else if s.cleanup_claimed == 0
    then record (touch (touch s)) { cleanup_claimed = 1; frees = s.frees + 1; owner = returned ok }
    else record (touch (touch s)) { cleanup_claimed = 1; owner = returned ok }

pub look-run :
    (cf : Config) (s : State)
    → cf.owner_finds look_finished ≡ s.finished
    → cf.owner_finds claim_cleanup ≡ s.cleanup_claimed
    → run cf (owners 3) (record s { owner = look_finished })
      ≡ look_end (record s { owner = look_finished })
unfolding run step owner_step
look-run cf s f c = elim (ℕ_discrete s.finished 0) [
  | yes runs ↦ ground arith
  | no ended_first ↦ elim (ℕ_discrete s.cleanup_claimed 0) [
    | yes unclaimed ↦ ground arith
    | no claimed ↦ ground arith
  ]
]

-- The struct when ccthread_detach looks whether the thread has finished.
abbrev pub windows_detached : State → State
windows_detached s = record (touch (touch s)) {
  closes = s.closes + 1;
  handle = 0;
  detached = 1;
  owner = look_finished;
}

abbrev pub posix_detached : State → State
posix_detached s = record (touch (touch s)) { detached = 1; owner = look_finished }

pub windows_tell-run :
    (cf : Config) (s : State)
    → is_windows cf.platform ≡ true
    → cf.owner_finds look_finished ≡ s.finished
    → cf.owner_finds claim_cleanup ≡ s.cleanup_claimed
    → run cf (owners 5) (record s { owner = tell_os }) ≡ look_end (windows_detached s)
unfolding run step owner_step
windows_tell-run cf s windows f c =
    let told : run cf (owners 2) (record s { owner = tell_os }) ≡ windows_detached s =
      ground arith in
    ap (run cf (owners 3)) told ∙ look-run cf (windows_detached s) f c

pub posix_tell-run :
    (cf : Config) (s : State)
    → is_windows cf.platform ≡ false
    → cf.os_ok ≡ true
    → cf.owner_finds look_finished ≡ s.finished
    → cf.owner_finds claim_cleanup ≡ s.cleanup_claimed
    → run cf (owners 5) (record s { owner = tell_os }) ≡ look_end (posix_detached s)
unfolding run step owner_step
posix_tell-run cf s posix works f c =
    let told : run cf (owners 2) (record s { owner = tell_os }) ≡ posix_detached s = ground arith in
    ap (run cf (owners 3)) told ∙ look-run cf (posix_detached s) f c

-- On POSIX ccthread_detach gives up where the system does.
pub tell-failed :
    (cf : Config) (s : State)
    → is_windows cf.platform ≡ false
    → cf.os_ok ≡ false
    → run cf (owners 5) (record s { owner = tell_os })
      ≡ record (touch s) { owner = returned failed }
unfolding run step owner_step
tell-failed cf s posix fails = ground arith
