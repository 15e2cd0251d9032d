-- ===== src/Lifecycle/Detached.antt =====
-- ccthread_wrapper against ccthread_detach: who frees the struct, and when.
use ccthread.Prelude.{ℕ, ◌+◌, ◌≤◌, ◌≡◌, ◌≢◌, refl, Bool, true, false, List, [], ◌∷◌, arith}
use ccthread.Types.{is_windows, ok}
use ccthread.Lifecycle.Race.{
  detach, Config, ChildPc, begin, work, finish, claim, close, release, ended, OwnerPc,
  guard_detached, guard_joined, guard_self, tell_os, mark_detached, look_finished, claim_cleanup,
  free_detached, returned, State, created, child_step, owner_step, Actor, child, owner, step, run,
  run-keeps,
}

-- The new thread has stored `finished`; it has seen `detached`; it is about to free.
abbrev pub past_finish : ChildPc → ℕ
past_finish begin = 0
past_finish work = 0
past_finish finish = 0
past_finish _ = 1

abbrev pub saw_detached : ChildPc → Bool
saw_detached claim = true
saw_detached close = true
saw_detached release = true
saw_detached _ = false

abbrev pub child_frees : ChildPc → ℕ
child_frees close = 1
child_frees release = 1
child_frees _ = 0

-- The owner is in ccthread_detach, has told the system, has stored `detached`, is about to free.
abbrev pub detaches : OwnerPc → Bool
detaches guard_detached = true
detaches guard_joined = true
detaches guard_self = true
detaches tell_os = true
detaches mark_detached = true
detaches look_finished = true
detaches claim_cleanup = true
detaches free_detached = true
detaches (returned _) = true
detaches _ = false

abbrev pub open_handle : OwnerPc → ℕ
open_handle mark_detached = 0
open_handle look_finished = 0
open_handle claim_cleanup = 0
open_handle free_detached = 0
open_handle (returned ok) = 0
open_handle _ = 1

abbrev pub past_mark : OwnerPc → ℕ
past_mark look_finished = 1
past_mark claim_cleanup = 1
past_mark free_detached = 1
past_mark (returned ok) = 1
past_mark _ = 0

abbrev pub owner_frees : OwnerPc → ℕ
owner_frees free_detached = 1
owner_frees _ = 0

pub record Inv (cf : Config) (s : State) : Type 0 where
  pub in_detach : detaches s.owner ≡ true
  pub not_joined : s.joined ≡ 0
  pub not_self : s.is_self ≡ 0
  pub fin : s.finished ≡ past_finish s.child
  pub det : s.detached ≡ past_mark s.owner
  pub seen : saw_detached s.child ≡ true → s.detached ≡ 1
  pub one : s.frees + child_frees s.child + owner_frees s.owner ≡ s.cleanup_claimed
  pub most : s.cleanup_claimed ≤ 1
  pub last : s.child ≡ ended → s.owner ≡ returned ok → s.cleanup_claimed ≡ 1
  pub opened : is_windows cf.platform ≡ true → s.handle ≡ open_handle s.owner
  pub closed : is_windows cf.platform ≡ true → s.closes + s.handle ≡ 1
  pub closing : s.child ≡ close → is_windows cf.platform ≡ true
  pub posix : is_windows cf.platform ≡ false → s.closes ≡ 0

-- Freed memory is used only once there is some.
pub record Uses (cf : Config) (s : State) : Type 0 where
  pub inv : s.used_free ≡ false → Inv cf s
  pub unused : s.frees ≡ 0 → s.used_free ≡ false

pub child-Inv :
    (cf : Config) (p : ChildPc) (s : State)
    → s.child ≡ p
    → (child_step cf p s).used_free ≡ false
    → Inv cf s
    → Inv cf (child_step cf p s)
unfolding child_step
child-Inv cf begin s e u v = ground arith
child-Inv cf p s e u v = ground arith

pub owner-Inv :
    (cf : Config) (p : OwnerPc) (s : State)
    → cf.consumer ≡ detach
    → s.owner ≡ p
    → (owner_step cf p s).used_free ≡ false
    → Inv cf s
    → Inv cf (owner_step cf p s)
unfolding owner_step
owner-Inv cf guard_detached s d e u v = ground arith
owner-Inv cf p s d e u v = ground arith

-- A use of freed memory is not undone, and neither is a free.
child_unused :
    (cf : Config) (p : ChildPc) (s : State)
    → ((child_step cf p s).used_free ≡ false → s.used_free ≡ false)
      × ((child_step cf p s).frees ≡ 0
          → s.used_free ≡ false
          → (s.frees ≡ 0) × ((child_step cf p s).used_free ≡ false))
      × ((child_step cf p s).frees ≡ 0 → s.frees ≡ 0)
unfolding child_step
child_unused cf begin s = ground arith
child_unused cf p s = ground arith

owner_unused :
    (cf : Config) (p : OwnerPc) (s : State)
    → ((owner_step cf p s).used_free ≡ false → s.used_free ≡ false)
      × ((owner_step cf p s).frees ≡ 0
          → s.used_free ≡ false
          → (s.frees ≡ 0) × ((owner_step cf p s).used_free ≡ false))
      × ((owner_step cf p s).frees ≡ 0 → s.frees ≡ 0)
unfolding owner_step
owner_unused cf guard_detached s = ground arith
owner_unused cf p s = ground arith

step-Uses :
    (cf : Config) (a : Actor) (s : State) → cf.consumer ≡ detach → Uses cf s → Uses cf (step cf a s)
unfolding step
step-Uses cf child s d v =
    let (back, fresh, still) = child_unused cf s.child s in
    record {
      inv = λ u. child-Inv cf s.child s refl u (v.inv (back u));
      unused = λ f. (fresh f (v.unused (still f))).1;
    }
step-Uses cf owner s d v =
    let (back, fresh, still) = owner_unused cf s.owner s in
    record {
      inv = λ u. owner-Inv cf s.owner s d refl u (v.inv (back u));
      unused = λ f. (fresh f (v.unused (still f))).1;
    }

pub run-Uses : (cf : Config) (ts : List Actor) → cf.consumer ≡ detach → Uses cf (run cf ts created)
run-Uses cf ts d =
    run-keeps cf (Uses cf) (λ a s v. step-Uses cf a s d v) ts created
      (record { inv = λ u. ground arith; unused = λ f. refl })

-- After every schedule of the new thread and an owner in ccthread_detach in which no access has used
-- freed memory, the struct was freed at most once, and once both are through, the system call having
-- succeeded, it was freed exactly once.
pub detach_frees_once :
    (cf : Config) (ts : List Actor)
    → cf.consumer ≡ detach
    → (run cf ts created).used_free ≡ false
    → ((run cf ts created).frees ≤ 1)
      × ((run cf ts created).child ≡ ended
          → (run cf ts created).owner ≡ returned ok
          → (run cf ts created).frees ≡ 1)
detach_frees_once cf ts d u = ground (arith, (run-Uses cf ts d).inv u)

-- On Windows, while no access has used freed memory, the handle of a detached thread is closed at most
-- once, and exactly once when ccthread_detach has returned, whichever thread frees the struct.
pub detach_closes_once :
    (cf : Config) (ts : List Actor)
    → cf.consumer ≡ detach
    → is_windows cf.platform ≡ true
    → (run cf ts created).used_free ≡ false
    → ((run cf ts created).closes ≤ 1)
      × ((run cf ts created).owner ≡ returned ok → (run cf ts created).closes ≡ 1)
detach_closes_once cf ts d w u = ground (arith, (run-Uses cf ts d).inv u)

-- The thread stores `finished` and the owner stores `detached`; then the thread sees `detached` and
-- frees the struct.
abbrev pub overlap : List Actor
overlap =
    child ∷ child ∷ child ∷ owner ∷ owner ∷ owner ∷ owner ∷ owner ∷ child ∷ child ∷ child ∷ child
    ∷ []

-- On every platform, for every thread function, if the system call of ccthread_detach succeeds: some
-- schedule ends the thread, which has freed the struct, while the owner stands before its load of
-- `finished`, no freed memory having been used; the next access of the owner then uses it. If it
-- finds there that `finished` is not 0 and `cleanup_claimed` is 0, the owner frees the struct again.
pub detach_may_use_freed :
    (cf : Config)
    → cf.consumer ≡ detach
    → cf.os_ok ≡ true
    → (ts : List Actor) × ((run cf ts created).child ≡ ended)
      × ((run cf ts created).frees ≡ 1)
      × ((run cf ts created).owner ≡ look_finished)
      × ((run cf ts created).used_free ≡ false)
      × ((step cf owner (run cf ts created)).used_free ≡ true)
      × (cf.owner_finds look_finished ≢ 0
          → cf.owner_finds claim_cleanup ≡ 0
          → (run cf (owner ∷ owner ∷ owner ∷ []) (run cf ts created)).frees ≡ 2)
unfolding run step
detach_may_use_freed cf d k = (
  overlap,
  ground arith,
  ground arith,
  ground arith,
  ground arith,
  ground arith,
  λ a b. ground arith,
)
