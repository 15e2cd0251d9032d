-- ===== src/Rwlock/Laws.antt =====
-- What the functions of ccrwlock.c do.
use ccthread.Prelude.{ℕ, ◌≡◌, List, [], ◌∷◌, ◌++◌, arith, ◌==◌, if◌then◌else◌}
use ccthread.Types.{Platform, is_windows, Status, is_success}
use ccthread.External.{Env, World, Resource, held, block, rwlock, lock, shared}
use ccthread.Rwlock.Calls.{
  ccrwlock_create, ccrwlock_rdlock, ccrwlock_tryrdlock, ccrwlock_wrlock, ccrwlock_trywrlock,
  ccrwlock_destroy,
}

-- What a read-write lock at `p` holds.
abbrev pub parts : Platform → ℕ → List Resource
parts platform p = if is_windows platform then (block, p) ∷ [] else (rwlock, p) ∷ (block, p) ∷ []

-- Whatever the system answers, ccrwlock_create returns NULL and holds nothing more than before, or
-- returns a lock and holds just its parts; and destroying the result at once leaves what was held
-- before.
pub held-ccrwlock_create :
    (platform : Platform) (env : Env) (w : World)
    → let (p, w') = ccrwlock_create platform env w in
      (held w'.history ≡ (if p == 0 then [] else parts platform p) ++ held w.history)
      × (held (ccrwlock_destroy platform p env w').1.history ≡ held w.history)
unfolding ccrwlock_create ccrwlock_destroy
held-ccrwlock_create platform env w = (ground arith, ground arith)

-- The four locking calls report success exactly when they have taken the lock, in shared mode for the
-- reading calls and in exclusive mode for the writing ones.
pub locking_held :
    (platform : Platform) (p : ℕ) (env : Env) (w : World)
    → let taken = λ (s : Status) (r : Resource).
      if is_success s then r ∷ held w.history else held w.history in
      (held (ccrwlock_rdlock platform p env w).1.history
        ≡ taken (ccrwlock_rdlock platform p env w).0 (shared, p))
      × (held (ccrwlock_tryrdlock platform p env w).1.history
          ≡ taken (ccrwlock_tryrdlock platform p env w).0 (shared, p))
      × (held (ccrwlock_wrlock platform p env w).1.history
          ≡ taken (ccrwlock_wrlock platform p env w).0 (lock, p))
      × (held (ccrwlock_trywrlock platform p env w).1.history
          ≡ taken (ccrwlock_trywrlock platform p env w).0 (lock, p))
unfolding ccrwlock_rdlock ccrwlock_tryrdlock ccrwlock_wrlock ccrwlock_trywrlock
locking_held platform p env w = (ground arith, ground arith, ground arith, ground arith)
