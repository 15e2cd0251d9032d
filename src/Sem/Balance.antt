-- ===== src/Sem/Balance.antt =====
-- What ccsem_create and ccsem_destroy acquire and release.
use ccthread.Prelude.{ℕ, ◌≡◌, ◌≢◌, true, List, ◌++◌, [], ◌∷◌, arith, ◌==◌, if◌then◌else◌}
use ccthread.Types.{Platform, is_windows, is_apple}
use ccthread.External.{
  Env, World, Heap, Resource, held, handle, sem, block, mutex, cond, kernel_object, dispatch,
}
use ccthread.Sem.Create.{ccsem_create, ccsem_destroy}

-- What a semaphore at `p` holds.
abbrev pub parts : Platform → Heap → ℕ → List Resource
parts platform h p =
    if is_windows platform
    then (kernel_object, h p handle) ∷ (block, p) ∷ []
    else if is_apple platform
    then (dispatch, h p sem) ∷ (block, p) ∷ []
    else (cond, p) ∷ (mutex, p) ∷ (block, p) ∷ []

-- Whatever the system answers, ccsem_create returns NULL and holds nothing more than before, or
-- returns a semaphore and holds just its parts: no failure leaks.
pub held-ccsem_create :
    (platform : Platform) (n : ℕ) (env : Env) (w : World)
    → let (p, w') = ccsem_create platform n env w in
      held w'.history ≡ (if p == 0 then [] else parts platform w'.heap p) ++ held w.history
unfolding ccsem_create
held-ccsem_create platform n env w = ground arith

-- ccsem_destroy gives back exactly what the semaphore holds, and does nothing for NULL.
pub held-ccsem_destroy :
    (platform : Platform) (p : ℕ) (env : Env) (w : World) (rest : List Resource)
    → (is_windows platform ≡ true → w.heap p handle ≢ 0)
    → held w.history ≡ (if p == 0 then [] else parts platform w.heap p) ++ rest
    → held (ccsem_destroy platform p env w).1.history ≡ rest
unfolding ccsem_destroy
held-ccsem_destroy platform p env w rest h e = ground arith

-- Making a semaphore and destroying it at once leaves nothing held that was not held before, whatever
-- the system answers to each call.
pub ccsem_create-destroy :
    (platform : Platform) (n : ℕ) (env : Env) (w : World)
    → let (p, w') = ccsem_create platform n env w in
      held (ccsem_destroy platform p env w').1.history ≡ held w.history
unfolding ccsem_create ccsem_destroy
ccsem_create-destroy platform n env w = ground arith
