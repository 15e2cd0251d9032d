-- ===== src/Examples/LifecycleTests/Laws.antt =====
-- What two tests of examples/ccthread_lifecycle.c find.
use ccthread.Prelude.{ℕ, ◌≡◌, refl, ◌≢◌, Bool, false, List, [], ◌∷◌, arith, ◌⊎◌, inl}
use ccthread.Types.{Platform, failed}
use ccthread.External.{Env, World, is_self, detached, joined}
use ccthread.Thread.Identity.{ccthread_self, ccthread_equal}
use ccthread.Thread.Laws.{self_stable, consumed_refused}
use ccthread.Thread.SelfLaws.{KeepsSelf, IsMarked, self-IsMarked}
use ccthread.Examples.LifecycleTests.{
  check, Actor, worker_turn, main_turn, step, start, run, test_error_paths,
}

differs :
    (platform : Platform) (env : Env) (w : World) (th : ℕ)
    → th ≢ 0
    → (ccthread_equal platform 0 th env w).0 ≡ 0
unfolding ccthread_equal
differs platform env w th n = ground arith

-- test_self_identity does not decide what it tests: on every platform there is a schedule after which
-- the worker has compared its handle with NULL and found a difference, and one after which it has
-- compared the handle with itself; in both of them main finds the worker done.
pub identity_undecided :
    (platform : Platform) (env : Env) (w : World) (th : ℕ)
    → th ≢ 0
    → ((ts : List Actor) × ((run platform env w th ts (start platform env w th)).main ≡ check)
        × ((run platform env w th ts (start platform env w th)).done ≡ 1)
        × ((run platform env w th ts (start platform env w th)).equal ≡ 0))
      × ((ts : List Actor) × ((run platform env w th ts (start platform env w th)).main ≡ check)
          × ((run platform env w th ts (start platform env w th)).done ≡ 1)
          × ((run platform env w th ts (start platform env w th)).equal
              ≡ (ccthread_equal platform th th env w).0))
unfolding run step
identity_undecided platform env w th n = (
  (
    worker_turn ∷ worker_turn ∷ worker_turn ∷ main_turn ∷ main_turn ∷ [],
    refl,
    refl,
    differs platform env w th n,
  ),
  (main_turn ∷ worker_turn ∷ worker_turn ∷ worker_turn ∷ main_turn ∷ [], refl, refl, refl),
)

self_or_null :
    (self : (ℕ × ℕ) × World)
    → IsMarked self
    → ((self.0.0 ≡ 0) ⊎ (self.1.heap self.0.0 detached ≢ 0))
      ⊎ ((self.1.heap self.0.0 joined ≢ 0) ⊎ (self.1.heap self.0.0 is_self ≢ 0))
self_or_null self m = ground arith

-- The error paths: whatever the system answers, in the main thread joining and detaching the own
-- handle is refused, joining and detaching NULL is refused, and the two later calls of ccthread_self
-- give the first handle again unless that was NULL, if nobody else writes the marks of handles.
pub error_paths_refused :
    (platform : Platform) (has_tls : Bool) (env : Env) (w : World)
    → KeepsSelf env
    → let o = (test_error_paths platform has_tls env w).0 in
      (o.join_self ≡ failed)
      × (o.detach_self ≡ failed)
      × (o.join_null ≡ failed)
      × (o.detach_null ≡ failed)
      × ((o.me ≡ 0) ⊎ ((o.first ≡ o.me) × (o.second ≡ o.me)))
unfolding test_error_paths
error_paths_refused platform has_tls env w k =
    let self = ccthread_self platform has_tls 0 env w in
    let w₁ = self.1 in
    let own =
      consumed_refused platform self.0.0 false env w₁
        (self_or_null self (self-IsMarked platform has_tls env w k)) in
    let null = consumed_refused platform 0 false env w₁ (inl (inl refl)) in
    let again = (self_stable platform has_tls 0 env env w w₁).0 in
    ground (arith, own.0, own.1, null.0, null.1, again)
