-- ===== src/Thread/Laws.antt =====
-- What the calls of ccthread.c on one handle do.
use ccthread.Prelude.{
  ℕ, suc, ◌≡◌, ◌≢◌, ◌⊎◌, inl, inr, true, false, Bool, Option, none, some, List, [], ◌∷◌, ◌++◌,
  arith, ◌==◌, if◌then◌else◌,
}
use ccthread.Types.{Platform, is_windows, apple, ok, failed}
use ccthread.External.{
  Env, World, Heap, Call, Resource, held, block, kernel_object, thread, handle, is_self, detached,
  joined, duplicated_handle, wait_for_single_object,
}
use ccthread.Sem.Native.{infinite}
use ccthread.Thread.Create.{ccthread_create, ccthread_join, ccthread_detach}
use ccthread.Thread.Identity.{ccthread_self, ccthread_equal}

abbrev pub is_some : Option ℕ → Bool
is_some none = false
is_some (some _) = true

-- What a thread handle at `p` holds while the thread is joinable.
abbrev pub parts : Platform → Heap → ℕ → List Resource
parts platform h p =
    if is_windows platform
    then (kernel_object, h p handle) ∷ (block, p) ∷ []
    else (thread, p) ∷ (block, p) ∷ []

-- Whatever the system answers, ccthread_create returns NULL and holds nothing more than before, or
-- returns a handle and holds just the struct and the thread; a NULL function is refused.
pub held-ccthread_create :
    (platform : Platform) (f a : ℕ) (env : Env) (w : World)
    → let (p, w') = ccthread_create platform f a env w in
      (held w'.history ≡ (if p == 0 then [] else parts platform w'.heap p) ++ held w.history)
      × (f ≡ 0 → (p ≡ 0) × (w' ≡ w))
unfolding ccthread_create
held-ccthread_create platform f a env w = (ground arith, λ h. (ground arith, ground arith))

-- A handle that is NULL, detached, joined or made by ccthread_self is refused by ccthread_join and
-- ccthread_detach, with no call to the system and no change of memory.
pub consumed_refused :
    (platform : Platform) (p : ℕ) (wanted : Bool) (env : Env) (w : World)
    → ((p ≡ 0) ⊎ (w.heap p detached ≢ 0)) ⊎ ((w.heap p joined ≢ 0) ⊎ (w.heap p is_self ≢ 0))
    → (ccthread_join platform p wanted env w ≡ ((failed, none), w))
      × (ccthread_detach platform p env w ≡ (failed, w))
unfolding ccthread_join ccthread_detach
consumed_refused platform p wanted env w h = (ground arith, ground arith)

self-cases :
    (platform : Platform) (has_tls : Bool) (self_ptr : ℕ) (env : Env) (w : World)
    → let ((p, cache), w') = ccthread_self platform has_tls self_ptr env w in
      (p ≡ 0) ⊎ ((p ≡ cache) × (has_tls ≡ true))
unfolding ccthread_self
self-cases platform has_tls self_ptr env w = ground arith

self-hit :
    (platform : Platform) (has_tls : Bool) (p cache : ℕ) (env : Env) (w : World)
    → p ≡ cache
    → has_tls ≡ true
    → p ≢ 0
    → ccthread_self platform has_tls cache env w ≡ ((p, cache), w)
unfolding ccthread_self
self-hit platform has_tls p cache env w e t h = ground arith

-- Once a thread has its own handle, every later call of ccthread_self in it returns the same pointer
-- and calls nothing; without thread-local variables there is no handle.
pub self_stable :
    (platform : Platform) (has_tls : Bool) (self_ptr : ℕ) (env env' : Env) (w v : World)
    → let ((p, cache), w') = ccthread_self platform has_tls self_ptr env w in
      (p ≢ 0 → ccthread_self platform has_tls cache env' v ≡ ((p, cache), v))
      × (has_tls ≡ false → p ≡ 0)
self_stable platform has_tls self_ptr env env' w v =
    elim (self-cases platform has_tls self_ptr env w) [
      | inl null ↦ (λ h. absurd (h null), λ no_tls. null)
      | inr (same, tls) ↦ (λ h. self-hit platform has_tls _ _ env' v same tls h, λ no_tls. cc)
    ]

-- A failure of ccthread_self leaks nothing; a success on a fresh thread holds one struct more, and on
-- Windows one handle.
pub self_held :
    (platform : Platform) (env : Env) (w : World)
    → let ((p, cache), w') = ccthread_self platform true 0 env w in
      held w'.history
      ≡ (if p == 0
          then []
          else if is_windows platform
          then (kernel_object, env.answer (suc (suc (suc (suc w.time)))) duplicated_handle)
            ∷ (block, p)
            ∷ []
          else (block, p) ∷ [])
        ++ held w.history
unfolding ccthread_self
self_held apple env w = ground arith
self_held platform env w = ground arith

-- No other thread writes the handle in the struct at `p` while the call runs.
abbrev pub KeepsHandle : Env → ℕ → Type 0
KeepsHandle env p = (n : ℕ) (c : Call) (h : Heap) → env.meddle n c h p handle ≡ h p handle

-- ccthread_join on a joinable handle gives back the thread and the struct if it succeeds, and the
-- caller gets a value exactly if it asked for one; if it fails everything is still held and there is
-- no value.
pub join_held :
    (platform : Platform) (p : ℕ) (wanted : Bool) (env : Env) (w : World) (rest : List Resource)
    → KeepsHandle env p
    → p ≢ 0
    → held w.history ≡ parts platform w.heap p ++ rest
    → let ((code, r), w') = ccthread_join platform p wanted env w in
      (code ≡ ok → (held w'.history ≡ rest) × (is_some r ≡ wanted))
      × (code ≡ failed → (held w'.history ≡ held w.history) × (r ≡ none))
unfolding ccthread_join
join_held platform p wanted env w rest k n h =
    ground (arith, k w.time (wait_for_single_object (w.heap p handle) infinite) w.heap)

-- ccthread_detach gives back the thread at once, and the struct as well or nothing more; if it fails
-- everything is still held.
pub detach_held :
    (platform : Platform) (p : ℕ) (env : Env) (w : World) (rest : List Resource)
    → p ≢ 0
    → held w.history ≡ parts platform w.heap p ++ rest
    → let (code, w') = ccthread_detach platform p env w in
      (code ≡ ok → (held w'.history ≡ rest) ⊎ (held w'.history ≡ (block, p) ∷ rest))
      × (code ≡ failed → held w'.history ≡ held w.history)
unfolding ccthread_detach
detach_held platform p env w rest n h = (λ e. ground arith, λ e. ground arith)

-- ccthread_equal with a NULL argument makes no call and answers 1 exactly when both are NULL; on
-- Windows it is reflexive and symmetric, and makes no call either.
pub equal_lem :
    (platform : Platform) (a b : ℕ) (env : Env) (w : World)
    → ((a ≡ 0) ⊎ (b ≡ 0) → ccthread_equal platform a b env w ≡ ((if a == b then 1 else 0), w))
      × (is_windows platform ≡ true
          → (ccthread_equal platform a a env w ≡ (1, w))
            × (ccthread_equal platform a b env w ≡ ccthread_equal platform b a env w))
unfolding ccthread_equal
equal_lem platform a b env w = (λ h. ground arith, λ h. (ground arith, ground arith))
