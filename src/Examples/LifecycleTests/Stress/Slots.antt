-- ===== src/Examples/LifecycleTests/Stress/Slots.antt =====
-- One thread of the tests that join: what holds of its slot, whatever the others do.
use ccthread.Prelude.{ℕ, ◌≡◌, refl, ◌≢◌, sym, ap, ◌∙◌, Bool, true, false, arith}
use mathlib.Core.Bool.{true≢false}
use ccthread.Types.{Platform, ok, failed}
use ccthread.Lifecycle.Race.{
  ChildPc, begin, work, ended, OwnerPc, guard_detached, returned, State, created, child_step,
  owner_step,
}
use ccthread.Lifecycle.Joined
use ccthread.Lifecycle.Joined.{has_value, child-Inv, owner-Inv}
use ccthread.Examples.LifecycleTests.Stress.{Slot, config, is_work, ret}

module _ (platform : Platform) where
  pub record IsSound (slot : Slot) : Type 0 where
    pub life : Joined.Inv (config platform slot.address) slot.state
    pub unborn : slot.is_created ≡ false → (slot.state ≡ created) × (slot.address ≡ 0)
    pub unfailed : slot.state.owner ≢ returned failed
    pub early : has_value slot.state.child ≡ false → slot.address ≡ 0

  pub empty-IsSound : (b : Bool) → IsSound (record { is_created = b; state = created; address = 0 })
  empty-IsSound b = record {
    life = ground arith;
    unborn = λ e. (refl, refl);
    unfailed = λ e. cc;
    early = λ e. refl;
  }

  -- The address may be chosen as late as the thread's function returns.
  choose-Inv :
      (a b : ℕ) (s : State)
      → s.child ≡ work
      → Joined.Inv (config platform a) s
      → Joined.Inv (config platform b) s
  choose-Inv a b s e v = ground arith

  unfailed_step :
      (a : ℕ) (p : OwnerPc) (s : State)
      → s.owner ≡ p
      → p ≢ returned failed
      → Joined.Inv (config platform a) s
      → (owner_step (config platform a) p s).owner ≢ returned failed
  unfolding owner_step
  unfailed_step a guard_detached s e u v = ground arith
  unfailed_step a p s e u v = ground arith

  -- A step of the new thread leaves what its owner has.
  pub child_keeps_owner :
      (a : ℕ) (p : ChildPc) (s : State) → (child_step (config platform a) p s).owner ≡ s.owner
  unfolding child_step
  child_keeps_owner a begin s = refl
  child_keeps_owner a p s = ground arith

  pub owner_keeps_child :
      (a : ℕ) (p : OwnerPc) (s : State) → (owner_step (config platform a) p s).child ≡ s.child
  unfolding owner_step
  owner_keeps_child a guard_detached s = refl
  owner_keeps_child a p s = ground arith

  pub returned_stays :
      (a : ℕ) (p : OwnerPc) (s : State)
      → s.owner ≡ p
      → p ≡ returned ok
      → (owner_step (config platform a) p s).owner ≡ returned ok
  unfolding owner_step
  returned_stays a (returned c) s e h = e ∙ h
  returned_stays a p s e h = absurd (ground arith)

  value_stays :
      (a : ℕ) (p : ChildPc) (s : State)
      → s.child ≡ p
      → is_work p ≡ false
      → has_value (child_step (config platform a) p s).child ≡ false
      → has_value p ≡ false
  unfolding child_step
  value_stays a begin s e w h = refl
  value_stays a p s e w h = ground arith

  -- A turn of the thread in which its function returns with the address `b`.
  pub work-IsSound :
      (b : ℕ) (slot : Slot)
      → slot.is_created ≡ true
      → slot.state.child ≡ work
      → IsSound slot
      → IsSound
          (record slot { state = child_step (config platform b) work slot.state; address = b })
  unfolding child_step
  work-IsSound b slot c e v = record {
    life =
        child-Inv (config platform b) work slot.state e
          (choose-Inv slot.address b slot.state e v.life);
    unborn = λ u. absurd (true≢false (sym c ∙ u));
    unfailed = v.unfailed;
    early = λ h. cc;
  }

  pub child-IsSound :
      (slot : Slot)
      → slot.is_created ≡ true
      → is_work slot.state.child ≡ false
      → IsSound slot
      → IsSound (record slot {
        state = child_step (config platform slot.address) slot.state.child slot.state;
      })
  child-IsSound slot c w v = record {
    life = child-Inv (config platform slot.address) slot.state.child slot.state refl v.life;
    unborn = λ u. absurd (true≢false (sym c ∙ u));
    unfailed =
        λ e. v.unfailed (sym (child_keeps_owner slot.address slot.state.child slot.state) ∙ e);
    early = λ h. v.early (value_stays slot.address slot.state.child slot.state refl w h);
  }

  pub owner-IsSound :
      (slot : Slot)
      → slot.is_created ≡ true
      → IsSound slot
      → IsSound (record slot {
        state = owner_step (config platform slot.address) slot.state.owner slot.state;
      })
  owner-IsSound slot c v = record {
    life = owner-Inv (config platform slot.address) slot.state.owner slot.state refl refl v.life;
    unborn = λ u. absurd (true≢false (sym c ∙ u));
    unfailed = unfailed_step slot.address slot.state.owner slot.state refl v.unfailed v.life;
    early = λ h.
        v.early
          (ap has_value (sym (owner_keeps_child slot.address slot.state.owner slot.state)) ∙ h);
  }

  -- Where ccthread_join has returned, the thread has ended.
  pub joined-ended :
      (slot : Slot) → IsSound slot → slot.state.owner ≡ returned ok → slot.state.child ≡ ended
  joined-ended slot v e = v.life.waited (ground arith)

  -- ... and its result is the address.
  pub joined-ret :
      (slot : Slot) → IsSound slot → slot.state.owner ≡ returned ok → ret slot ≡ slot.address
  joined-ret slot v e = let g = v.life.fetched (ground arith) in ground arith

  -- ... and the struct is free.
  pub joined-freed :
      (slot : Slot)
      → IsSound slot
      → slot.state.owner ≡ returned ok
      → (slot.state.child ≡ ended) × (slot.state.frees ≡ 1) × (slot.state.used_free ≡ false)
  joined-freed slot v e =
      let f = v.life.frees in (joined-ended slot v e, ground arith, v.life.clean)
