-- ===== src/Mutex/Laws.antt =====
-- What the functions of ccmutex.c do, on every platform and for both types of mutex.
use ccthread.Prelude.{
  ℕ, zero, suc, ◌<◌, ◌≡◌, ◌≢◌, some, List, [], ◌∷◌, ◌++◌, arith, ◌==◌, if◌then◌else◌,
}
use ccthread.Types.{
  Platform, is_windows, RecursionType, plain, recursive, is_recursive, Status, success, is_success,
}
use ccthread.External
use ccthread.External.{Env, World, Heap, Field, Call, Resource, held, block, mutex, critical, lock}
use ccthread.Mutex.Calls.{
  ccmutex_create, ccmutex_trylock, ccthread_yield, lock_loop, ccmutex_lock, ccmutex_unlock,
  ccmutex_destroy, ccmutex_is_recursive, srwlock, critical_section, pthread_mutex,
  ccmutex_native_handle,
}

-- What a mutex at `p` holds.
abbrev pub parts : Platform → RecursionType → ℕ → List Resource
parts platform type p =
    if is_windows platform
    then (if is_recursive type then (critical, p) ∷ (block, p) ∷ [] else (block, p) ∷ [])
    else (mutex, p) ∷ (block, p) ∷ []

-- Whatever the system answers, ccmutex_create returns NULL and holds nothing more than before, or
-- returns a mutex and holds just its parts: the attribute object never leaks.
pub held-ccmutex_create :
    (platform : Platform) (type : RecursionType) (env : Env) (w : World)
    → let (p, w') = ccmutex_create platform type env w in
      held w'.history ≡ (if p == 0 then [] else parts platform type p) ++ held w.history
unfolding ccmutex_create
held-ccmutex_create platform plain env w = ground arith
held-ccmutex_create platform recursive env w = ground arith

-- The field `recursive` of the struct at `p` is written by nobody but ccmutex_create.
abbrev pub KeepsType : Env → Type 0
KeepsType env =
    (n : ℕ) (c : Call) (h : Heap) (p : ℕ)
    → env.meddle n c h p External.recursive ≡ h p External.recursive

-- Making a mutex and destroying it leaves nothing held that was not held before.
pub ccmutex_create-destroy :
    (platform : Platform) (type : RecursionType) (env : Env) (w : World)
    → KeepsType env
    → let (p, w') = ccmutex_create platform type env w in
      held (ccmutex_destroy platform p env w').1.history ≡ held w.history
unfolding ccmutex_create ccmutex_destroy
ccmutex_create-destroy platform plain env w k = ground arith
ccmutex_create-destroy platform recursive env w k =
    let p = env.answer w.time External.calloc in
    let zeroed : Heap = λ q f. if p == q then 0 else env.meddle w.time External.calloc w.heap q f in
    ground (
      arith,
      k (suc w.time) (External.critical_init p) (External.write zeroed p External.recursive 1) p,
    )

-- ccmutex_is_recursive and ccmutex_native_handle report the type that the mutex was made with: the
-- handle is the one that the table in ccmutex.h gives for the platform and the type.
pub native_handle-type :
    (platform : Platform) (type : RecursionType) (env : Env) (w : World)
    → KeepsType env
    → (ccmutex_create platform type env w).0 ≢ 0
    → let (p, w') = ccmutex_create platform type env w in
      ((ccmutex_is_recursive p env w').0 ≡ (if is_recursive type then 1 else 0))
      × ((ccmutex_native_handle platform p env w').0 ≡ (
          if is_windows platform
          then (if is_recursive type then critical_section p else srwlock p)
          else pthread_mutex p))
unfolding ccmutex_create ccmutex_is_recursive ccmutex_native_handle
native_handle-type platform plain env w k n =
    let p = env.answer w.time External.calloc in
    let zeroed : Heap = λ q f. if p == q then 0 else env.meddle w.time External.calloc w.heap q f in
    ground (
      arith,
      k (suc w.time) (External.mutex_init plain p) (External.write zeroed p External.recursive 0) p,
    )
native_handle-type platform recursive env w k n =
    let t = w.time in
    let p = env.answer t External.calloc in
    let zeroed : Heap = λ q f. if p == q then 0 else env.meddle t External.calloc w.heap q f in
    let h₁ = External.write zeroed p External.recursive 1 in
    let h₂ = env.meddle (suc t) External.mutexattr_init h₁ in
    let h₃ = env.meddle (suc (suc t)) External.mutexattr_settype_recursive h₂ in
    let h₄ = env.meddle (suc (suc (suc t))) (External.mutex_init recursive p) h₃ in
    ground (
      arith,
      k (suc t) (External.critical_init p) h₁ p,
      k (suc t) External.mutexattr_init h₁ p,
      k (suc (suc t)) External.mutexattr_settype_recursive h₂ p,
      k (suc (suc (suc t))) (External.mutex_init recursive p) h₃ p,
      k (suc (suc (suc (suc t)))) External.mutexattr_destroy h₄ p,
    )

-- ccmutex_trylock succeeds exactly when it has taken the lock.
pub trylock-held :
    (platform : Platform) (p : ℕ) (env : Env) (w : World)
    → held (ccmutex_trylock platform p env w).1.history ≡ (
        if is_success (ccmutex_trylock platform p env w).0
        then (lock, p) ∷ held w.history
        else held w.history)
unfolding ccmutex_trylock
trylock-held platform p env w = ground arith

yield-held :
    (platform : Platform) (env : Env) (w : World)
    → held (ccthread_yield platform env w).1.history ≡ held w.history
unfolding ccthread_yield
yield-held platform env w = ground arith

-- The world after `k` failed attempts of the loop in ccmutex_lock.
unfoldable pub attempts : ℕ → Platform → ℕ → Env → World → World
attempts zero platform p env w = w
attempts (suc k) platform p env w =
    attempts k platform p env (ccthread_yield platform env (ccmutex_trylock platform p env w).1).1

pub lock_loop-held :
    (fuel : ℕ) (platform : Platform) (p : ℕ) (env : Env) (w : World) (s : Status)
    → (lock_loop fuel platform p env w).0 ≡ some s
    → (s ≡ success)
      × (held (lock_loop fuel platform p env w).1.history ≡ (lock, p) ∷ held w.history)
unfolding lock_loop
lock_loop-held zero platform p env w s e = cc
lock_loop-held (suc fuel) platform p env w s e =
    let w' = (ccmutex_trylock platform p env w).1 in
    ground (
      arith,
      trylock-held platform p env w,
      yield-held platform env w',
      lock_loop-held fuel platform p env (ccthread_yield platform env w').1 s,
    )

lock_loop-returns :
    (k fuel : ℕ) (platform : Platform) (p : ℕ) (env : Env) (w : World)
    → k < fuel
    → (ccmutex_trylock platform p env (attempts k platform p env w)).0 ≡ success
    → (lock_loop fuel platform p env w).0 ≡ some success
unfolding attempts lock_loop
lock_loop-returns k zero platform p env w b h = absurd (omega arith)
lock_loop-returns zero (suc fuel) platform p env w b h = rw h
lock_loop-returns (suc k) (suc fuel) platform p env w b h = ground (
  arith,
  lock_loop-returns k fuel platform p env
      (ccthread_yield platform env (ccmutex_trylock platform p env w).1).1,
)

-- ccmutex_lock of a mutex that is not NULL blocks until it has the lock: it returns success, with at
-- most `k` yields, if the `k`-th attempt after the first would succeed; and whenever it returns, it
-- reports success and holds the lock and nothing else that it did not hold before.
pub lock_acquires :
    (k fuel : ℕ) (platform : Platform) (p : ℕ) (env : Env) (w : World) (s : Status)
    → p ≢ 0
    → (k < fuel
        → (ccmutex_trylock platform p env (attempts k platform p env w)).0 ≡ success
        → (ccmutex_lock fuel platform p env w).0 ≡ some success)
      × ((ccmutex_lock fuel platform p env w).0 ≡ some s
          → (s ≡ success)
            × (held (ccmutex_lock fuel platform p env w).1.history ≡ (lock, p) ∷ held w.history))
unfolding ccmutex_lock
lock_acquires k fuel platform p env w s n = (
  λ b h. ground (arith, lock_loop-returns k fuel platform p env w b h),
  λ e. ground (arith, lock_loop-held fuel platform p env w s),
)

-- An unlock after a successful attempt leaves what was held before, on every platform, for both types.
pub trylock-unlock :
    (platform : Platform) (p : ℕ) (env : Env) (w : World)
    → (ccmutex_trylock platform p env w).0 ≡ success
    → held (ccmutex_unlock platform p env (ccmutex_trylock platform p env w).1).1.history
      ≡ held w.history
unfolding ccmutex_trylock ccmutex_unlock
trylock-unlock platform p env w e = ground arith
