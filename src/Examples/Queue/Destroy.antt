-- ===== src/Examples/Queue/Destroy.antt =====
-- What queue_create and queue_destroy of examples/cccondvar_basic.c acquire and release.
use ccthread.Prelude.{
  ℕ, ◌+◌, ◌≡◌, ◌≢◌, refl, Bool, true, false, Option, none, some, List, [], ◌∷◌, ◌++◌, arith, ◌==◌,
  if◌then◌else◌,
}
use ccthread.Types.{Platform, plain}
use ccthread.External.{Env, World, Resource, held, block, pure, ◌>>=◌, alloc}
use ccthread.External.Amounts.{one, amount, amount-append, Within}
use ccthread.Mutex.Calls.{ccmutex_create, ccmutex_destroy}
use ccthread.Mutex.Laws.{KeepsType}
use ccthread.Condvar.Calls.{cccondvar_create, cccondvar_destroy}
use ccthread.Examples.Queue.Create.{Handles, queue_create, queue_destroy, give_up, fill, checked}
use ccthread.Examples.Queue.Objects.{
  mutex_made, cond_made, mutex_freed, cond_freed, mutex-IsPlain, cond-IsPlain, block_freed,
  mutex_skipped, cond_skipped, alloc_made, mutex_parts, cond_parts, IsPlain, Gained,
}

-- The three objects of a queue.
abbrev objects : Platform → Handles → List Resource
objects platform q =
    mutex_parts platform q.mtx
    ++ (cond_parts platform q.not_full ++ cond_parts platform q.not_empty)

fill_made :
    (platform : Platform) (q : ℕ) (env : Env) (w : World)
    → let (h, w') = fill platform q env w in Gained w w' (objects platform h)
unfolding fill
fill_made platform q env w r =
    let (m, w₁) = ccmutex_create platform plain env w in
    let (f, w₂) = cccondvar_create platform env w₁ in
    let (e, w₃) = cccondvar_create platform env w₂ in
    let split₁ =
      amount-append r (mutex_parts platform m) (cond_parts platform f ++ cond_parts platform e) in
    let split₂ = amount-append r (cond_parts platform f) (cond_parts platform e) in
    omega (
      arith,
      mutex_made platform env w r,
      cond_made platform env w₁ r,
      cond_made platform env w₂ r,
      split₁,
      split₂,
    )

fill-IsPlain :
    (platform : Platform) (q : ℕ) (env : Env) (w : World)
    → KeepsType env
    → let (h, w') = fill platform q env w in IsPlain h.mtx w'
unfolding fill
fill-IsPlain platform q env w k =
    let (m, w₁) = ccmutex_create platform plain env w in
    let w₂ = (cccondvar_create platform env w₁).1 in
    cond-IsPlain platform env w₂ m k
      (cond-IsPlain platform env w₁ m k (mutex-IsPlain platform env w k))

-- A queue, and the block that holds it.
abbrev everything : Platform → Handles → List Resource
everything platform q = objects platform q ++ (block, q.address) ∷ []

amount-everything :
    (platform : Platform) (q : Handles) (r : Resource)
    → amount r (everything platform q)
      ≡ amount r (mutex_parts platform q.mtx)
        + amount r (cond_parts platform q.not_full)
        + amount r (cond_parts platform q.not_empty)
        + one r (block, q.address)
amount-everything platform q r =
    let f = cond_parts platform q.not_full in
    let e = cond_parts platform q.not_empty in
    let m = mutex_parts platform q.mtx in
    omega (
      arith,
      amount-append r (m ++ (f ++ e)) ((block, q.address) ∷ []),
      amount-append r m (f ++ e),
      amount-append r f e,
    )

queue_freed :
    (platform : Platform) (q : Handles) (env : Env) (w : World)
    → q.address ≢ 0
    → IsPlain q.mtx w
    → Within (everything platform q) (held w.history)
    → Gained (queue_destroy platform q env w).1 w (everything platform q)
unfolding queue_destroy
queue_freed platform q env w n k h r =
    let w₁ = (ccmutex_destroy platform q.mtx env w).1 in
    let w₂ = (cccondvar_destroy platform q.not_full env w₁).1 in
    let w₃ = (cccondvar_destroy platform q.not_empty env w₂).1 in
    let all = amount-everything platform q in
    let m : Gained w₁ w (mutex_parts platform q.mtx) =
      mutex_freed platform q.mtx env w k (λ s. omega (arith, h s, all s)) in
    let f : Gained w₂ w₁ (cond_parts platform q.not_full) =
      cond_freed platform q.not_full env w₁ (λ s. omega (arith, h s, all s, m s)) in
    let e : Gained w₃ w₂ (cond_parts platform q.not_empty) =
      cond_freed platform q.not_empty env w₂ (λ s. omega (arith, h s, all s, m s, f s)) in
    let b = block_freed q.address env w₃ n (λ s. omega (arith, h s, all s, m s, f s, e s)) in
    omega (arith, all r, m r, f r, e r, b r)

-- A NULL pointer is not destroyed either way.
give_up-queue_destroy :
    (platform : Platform) (q : Handles) (env : Env) (w : World)
    → give_up platform q env w ≡ (none, (queue_destroy platform q env w).1)
unfolding give_up queue_destroy
give_up-queue_destroy platform q env w =
    let w₁ = (ccmutex_destroy platform q.mtx env w).1 in
    let w₂ = (cccondvar_destroy platform q.not_full env w₁).1 in
    ground (
      arith,
      mutex_skipped platform q.mtx env w,
      cond_skipped platform q.not_full env w₁,
      cond_skipped platform q.not_empty env w₂,
    )

-- What a result of queue_create holds.
abbrev pub queue_parts : Platform → Option Handles → List Resource
queue_parts platform none = []
queue_parts platform (some q) = everything platform q

-- A queue can be destroyed: nothing is asked of NULL.
abbrev IsUsable : Option Handles → World → Type 0
IsUsable none w = Unit
IsUsable (some q) w = (q.address ≢ 0) × IsPlain q.mtx w

-- What queue_create makes of the world `w`.
abbrev Made : Platform → World → Option Handles × World → Type 0
Made platform w (q, w') = Gained w w' (queue_parts platform q) × IsUsable q w'

module _ (platform : Platform) (env : Env) (w : World) where
  given_up :
      (q : Handles) (w' : World)
      → q.address ≢ 0
      → IsPlain q.mtx w'
      → Gained w w' (everything platform q)
      → Gained w (give_up platform q env w').1 []
  given_up q w' n k a r =
      let f = queue_freed platform q env w' n k (λ s. omega (arith, a s)) r in
      rw (give_up-queue_destroy platform q env w') (omega (arith, f, a r))

  checked_made :
      (fails : Bool) (q : Handles) (w' : World)
      → q.address ≢ 0
      → IsPlain q.mtx w'
      → Gained w w' (everything platform q)
      → Made platform w ((if fails then give_up platform q else pure (some q)) env w')
  unfolding give_up
  checked_made true q w' n k a = (given_up q w' n k a, tt)
  checked_made false q w' n k a = (a, (n, k))

  created :
      (q : ℕ) (w' : World) (null : Bool)
      → (q == 0) ≡ null
      → KeepsType env
      → Gained w w' (if null then [] else (block, q) ∷ [])
      → Made platform w
          ((if null then pure none else (do h ← fill platform q; checked platform h)) env w')
  unfolding checked fill
  created q w' true e k a = (a, tt)
  created q w' false e k a =
      let (h, w'') = fill platform q env w' in
      checked_made _ h w'' (λ z. ground (arith, e, z)) (fill-IsPlain platform q env w' k)
        (λ r. omega (
          arith,
          amount-everything platform h r,
          fill_made platform q env w' r,
          a r,
          amount-append r (objects platform h) ((block, h.address) ∷ []),
        ))

  queue_made : KeepsType env → Made platform w (queue_create platform env w)
  unfolding queue_create
  queue_made k = created (alloc env w).0 (alloc env w).1 _ refl k (alloc_made env w)

  -- Whatever the system answers, queue_create returns NULL and holds nothing more than before, with
  -- every object that it had made given back, or returns a queue and holds just its mutex, its two
  -- condition variables and its block.
  pub held-queue_create :
      KeepsType env
      → (r : Resource)
      → let (q, w') = queue_create platform env w in
        amount r (held w'.history) ≡ amount r (queue_parts platform q) + amount r (held w.history)
  held-queue_create k = (queue_made k).0

  -- Destroying a new queue at once leaves held what was held before, each resource as often.
  pub queue_create-destroy :
      (q : Handles)
      → KeepsType env
      → (queue_create platform env w).0 ≡ some q
      → (r : Resource)
      → amount r (held (queue_destroy platform q env (queue_create platform env w).1).1.history)
        ≡ amount r (held w.history)
  queue_create-destroy q k e r =
      let w' = (queue_create platform env w).1 in
      let m : Made platform w (some q, w') = rw e at (queue_made k) in
      let f = queue_freed platform q env w' m.1.0 m.1.1 (λ s. omega (arith, m.0 s)) r in
      omega (arith, f, m.0 r)
