-- ===== src/Examples/Queue/Objects.antt =====
-- The mutex, the condition variables and the block of a queue: what making and destroying each does to
-- what is held.
use ccthread.Prelude.{ℕ, suc, ◌+◌, ◌≡◌, ◌≢◌, ap, ◌∙◌, List, [], ◌∷◌, arith, ◌==◌, if◌then◌else◌}
use ccthread.Types.{Platform, plain}
use ccthread.External
use ccthread.External.{
  Env, World, Heap, Resource, held, remove, block, Call, Prog, call, pure, ◌>>=◌, zero_struct,
  alloc, calloc, free, cv_init, ◌>>◌, condattr_init, condattr_setclock, condattr_destroy, cond_init,
}
use ccthread.External.Amounts.{amount, amount-append, remove_all, amount-remove_all, Within}
use ccthread.Mutex.Calls.{ccmutex_create, ccmutex_destroy}
use ccthread.Mutex.Laws as MutexLaws
use ccthread.Mutex.Laws.{held-ccmutex_create, KeepsType}
use ccthread.Condvar.Calls.{create_posix, cccondvar_create, cccondvar_destroy}
use ccthread.Condvar.Laws as CondvarLaws
use ccthread.Condvar.Laws.{held-cccondvar_create}
use ccthread.Clock.{clock_id}

-- What an object at `p` holds, nothing for NULL.
abbrev pub mutex_parts : Platform → ℕ → List Resource
mutex_parts platform p = if p == 0 then [] else MutexLaws.parts platform plain p

abbrev pub cond_parts : Platform → ℕ → List Resource
cond_parts platform p = if p == 0 then [] else CondvarLaws.parts platform p

-- A mutex at `p`, if there is one, is known as a plain one.
abbrev pub IsPlain : ℕ → World → Type 0
IsPlain p w = p ≢ 0 → w.heap p External.recursive ≡ 0

-- The second world holds the resources of the list more than the first one.
abbrev pub Gained : World → World → List Resource → Type 0
Gained w w' rs =
    (r : Resource) → amount r (held w'.history) ≡ amount r rs + amount r (held w.history)

pub mutex_made :
    (platform : Platform) (env : Env) (w : World)
    → let (p, w') = ccmutex_create platform plain env w in Gained w w' (mutex_parts platform p)
mutex_made platform env w r =
    let (p, w') = ccmutex_create platform plain env w in
    ap (amount r) (held-ccmutex_create platform plain env w)
    ∙ amount-append r (mutex_parts platform p) (held w.history)

pub cond_made :
    (platform : Platform) (env : Env) (w : World)
    → let (p, w') = cccondvar_create platform env w in Gained w w' (cond_parts platform p)
cond_made platform env w r =
    let (p, w') = cccondvar_create platform env w in
    ap (amount r) (held-cccondvar_create platform env w).0
    ∙ amount-append r (cond_parts platform p) (held w.history)

held-ccmutex_destroy :
    (platform : Platform) (p : ℕ) (env : Env) (w : World)
    → IsPlain p w
    → held (ccmutex_destroy platform p env w).1.history
      ≡ remove_all (mutex_parts platform p) (held w.history)
unfolding ccmutex_destroy
held-ccmutex_destroy platform p env w k = ground arith

held-cccondvar_destroy :
    (platform : Platform) (p : ℕ) (env : Env) (w : World)
    → held (cccondvar_destroy platform p env w).1.history
      ≡ remove_all (cond_parts platform p) (held w.history)
unfolding cccondvar_destroy
held-cccondvar_destroy platform p env w = ground arith

pub mutex_freed :
    (platform : Platform) (p : ℕ) (env : Env) (w : World)
    → IsPlain p w
    → Within (mutex_parts platform p) (held w.history)
    → Gained (ccmutex_destroy platform p env w).1 w (mutex_parts platform p)
mutex_freed platform p env w k h r =
    let e = ap (amount r) (held-ccmutex_destroy platform p env w k) in
    omega (arith, e, amount-remove_all r (mutex_parts platform p) (held w.history) h)

pub cond_freed :
    (platform : Platform) (p : ℕ) (env : Env) (w : World)
    → Within (cond_parts platform p) (held w.history)
    → Gained (cccondvar_destroy platform p env w).1 w (cond_parts platform p)
cond_freed platform p env w h r =
    let e = ap (amount r) (held-cccondvar_destroy platform p env w) in
    omega (arith, e, amount-remove_all r (cond_parts platform p) (held w.history) h)

pub mutex-IsPlain :
    (platform : Platform) (env : Env) (w : World)
    → KeepsType env
    → let (p, w') = ccmutex_create platform plain env w in IsPlain p w'
unfolding ccmutex_create
mutex-IsPlain platform env w k n =
    let p = env.answer w.time External.calloc in
    let zeroed : Heap = λ q f. if p == q then 0 else env.meddle w.time External.calloc w.heap q f in
    ground (
      arith,
      k (suc w.time) (External.mutex_init plain p) (External.write zeroed p External.recursive 0) p,
    )

alloc-IsPlain :
    (env : Env) (w : World) (p : ℕ) → KeepsType env → IsPlain p w → IsPlain p (alloc env w).1
alloc-IsPlain env w p k o n = ground (arith, o n, k w.time calloc w.heap p)

setup-IsPlain :
    (platform : Platform) (q : ℕ) (env : Env) (w : World) (p : ℕ)
    → KeepsType env
    → IsPlain p w
    → IsPlain p (create_posix platform q env w).1
unfolding create_posix
setup-IsPlain platform q env w p k o n =
    let t = w.time in
    let init = env.meddle t condattr_init w.heap in
    let clocked = env.meddle (suc t) (condattr_setclock (clock_id env.clocks)) init in
    let made : ℕ → Heap → Heap = λ s h. env.meddle s (cond_init q) h in
    let over : ℕ → Heap → Heap = λ s h. env.meddle (suc s) condattr_destroy (made s h) in
    ground (
      arith,
      o n,
      k t condattr_init w.heap p,
      k (suc t) (condattr_setclock (clock_id env.clocks)) init p,
      k (suc t) (cond_init q) init p,
      k (suc (suc t)) condattr_destroy (made (suc t) init) p,
      k (suc (suc (suc t))) (free q) (over (suc t) init) p,
      k (suc (suc t)) (cond_init q) clocked p,
      k (suc (suc (suc t))) condattr_destroy (made (suc (suc t)) clocked) p,
      k (suc (suc (suc (suc t)))) (free q) (over (suc (suc t)) clocked) p,
    )

pub cond-IsPlain :
    (platform : Platform) (env : Env) (w : World) (p : ℕ)
    → KeepsType env
    → IsPlain p w
    → IsPlain p (cccondvar_create platform env w).1
unfolding cccondvar_create
cond-IsPlain platform env w p k o n =
    let (q, w') = alloc env w in
    ground (
      arith,
      alloc-IsPlain env w p k o n,
      k w'.time (cv_init q) w'.heap p,
      setup-IsPlain platform q env w' p k (alloc-IsPlain env w p k o) n,
    )

pub block_freed :
    (q : ℕ) (env : Env) (w : World)
    → q ≢ 0
    → Within ((block, q) ∷ []) (held w.history)
    → Gained (call (free q) env w).1 w ((block, q) ∷ [])
block_freed q env w n h r =
    let e : held (call (free q) env w).1.history ≡ remove (block, q) (held w.history) =
      ground arith in
    omega (arith, ap (amount r) e, amount-remove_all r ((block, q) ∷ []) (held w.history) h)

pub mutex_skipped :
    (platform : Platform) (p : ℕ) (env : Env) (w : World)
    → (if p == 0 then pure 0 else ccmutex_destroy platform p) env w
      ≡ ccmutex_destroy platform p env w
unfolding ccmutex_destroy
mutex_skipped platform p env w = ground arith

pub cond_skipped :
    (platform : Platform) (p : ℕ) (env : Env) (w : World)
    → (if p == 0 then pure 0 else cccondvar_destroy platform p) env w
      ≡ cccondvar_destroy platform p env w
unfolding cccondvar_destroy
cond_skipped platform p env w = ground arith

pub alloc_made :
    (env : Env) (w : World)
    → let (q, w') = alloc env w in Gained w w' (if q == 0 then [] else (block, q) ∷ [])
alloc_made env w r = ground arith
