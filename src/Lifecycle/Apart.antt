-- ===== src/Lifecycle/Apart.antt =====
-- ccthread_wrapper against ccthread_detach where the two do not overlap: no use of freed memory.
use ccthread.Prelude.{◌≡◌, refl, ◌⊎◌, ◌<◌, false, List, arith}
use ccthread.Types.{ok}
use ccthread.Lifecycle.Race.{
  detach, Config, ChildPc, begin, ended, OwnerPc, guard_detached, returned, State, created,
  child_step, owner_step, Actor, child, owner, step, run, run-keeps,
}
use ccthread.Lifecycle.Detached.{Inv, Uses, child-Inv, owner-Inv, run-Uses}

-- One of the two is through, and the struct is only freed when both are.
record Apart (s : State) : Type 0 where
  clean : s.used_free ≡ false
  through : (s.child ≡ ended) ⊎ (s.owner ≡ returned ok)
  kept : 0 < s.frees → (s.child ≡ ended) × (s.owner ≡ returned ok)

child-Apart :
    (cf : Config) (p : ChildPc) (s : State) → s.child ≡ p → Apart s → Apart (child_step cf p s)
unfolding child_step
child-Apart cf begin s e v = ground arith
child-Apart cf p s e v = ground arith

owner-Apart :
    (cf : Config) (p : OwnerPc) (s : State)
    → cf.consumer ≡ detach
    → s.owner ≡ p
    → Inv cf s
    → Apart s
    → Apart (owner_step cf p s)
unfolding owner_step
owner-Apart cf guard_detached s d e i v = ground arith
owner-Apart cf p s d e i v = ground arith

abbrev Both : Config → State → Type 0
Both cf s = Inv cf s × Apart s

step-Both :
    (cf : Config) (a : Actor) (s : State) → cf.consumer ≡ detach → Both cf s → Both cf (step cf a s)
unfolding step
step-Both cf child s d v =
    let apart = child-Apart cf s.child s refl v.1 in
    (child-Inv cf s.child s refl apart.clean v.0, apart)
step-Both cf owner s d v =
    let apart = owner-Apart cf s.owner s d refl v.0 v.1 in
    (owner-Inv cf s.owner s d refl apart.clean v.0, apart)

run-Apart :
    (cf : Config) (s : State)
    → Uses cf s
    → s.frees ≡ 0
    → (s.child ≡ ended) ⊎ (s.owner ≡ returned ok)
    → Both cf s
run-Apart cf s v f o = (
  v.inv (v.unused f),
  record { clean = v.unused f; through = o; kept = λ h. absurd (omega arith) },
)

-- Where the two do not overlap, freed memory is never used: once the thread has ended, or the owner
-- has returned, with the struct not yet freed, no later schedule touches it after it is freed.
pub detach_apart :
    (cf : Config) (ts us : List Actor)
    → cf.consumer ≡ detach
    → (run cf ts created).frees ≡ 0
    → ((run cf ts created).child ≡ ended) ⊎ ((run cf ts created).owner ≡ returned ok)
    → (run cf us (run cf ts created)).used_free ≡ false
detach_apart cf ts us d f o =
    (run-keeps cf (Both cf) (λ a s v. step-Both cf a s d v) us (run cf ts created)
      (run-Apart cf (run cf ts created) (run-Uses cf ts d) f o)).1.clean
