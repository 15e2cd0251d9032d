-- ===== src/External/Ledger.antt =====
-- Which resources a history leaves held: allocations, initialised objects, handles, locked mutexes.
use ccthread.Prelude.{ℕ, Bool, List, [], ◌∷◌, ◌&&◌, ◌==◌, if◌then◌else◌}
use ccthread.External.Calls.{
  Call, calloc, free, mutexattr_init, mutexattr_destroy, mutex_init, mutex_destroy, mutex_lock,
  mutex_trylock, mutex_unlock, condattr_init, condattr_destroy, cond_init, cond_destroy,
  rwlock_init, rwlock_destroy, create_semaphore, close_handle, critical_init, critical_delete,
  critical_try_enter, critical_leave, srw_acquire_exclusive, srw_try_exclusive,
  srw_release_exclusive, srw_acquire_shared, srw_try_shared, srw_release_shared, rwlock_rdlock,
  rwlock_tryrdlock, create_thread, pthread_create, pthread_join, pthread_detach, duplicated_handle,
  malloc, rwlock_wrlock, rwlock_trywrlock, dispatch_create, dispatch_release,
}

-- `fault` marks the release of something that was not held.
pub data Kind : Type 0 where
  block mutex cond rwlock mutex_attr cond_attr kernel_object critical dispatch lock shared thread
        fault :
      Kind

abbrev pub kind_index : Kind → ℕ
kind_index block = 0
kind_index mutex = 1
kind_index cond = 2
kind_index rwlock = 3
kind_index mutex_attr = 4
kind_index cond_attr = 5
kind_index kernel_object = 6
kind_index critical = 7
kind_index dispatch = 8
kind_index lock = 9
kind_index shared = 10
kind_index thread = 11
kind_index fault = 12

-- A resource, by its kind and its address or handle.
abbrev pub Resource : Type 0
Resource = Kind × ℕ

abbrev pub same : Resource → Resource → Bool
same (k, p) (j, q) = (kind_index k == kind_index j) && (p == q)

-- The latest entry goes first.
abbrev pub remove : Resource → List Resource → List Resource
remove r [] = (fault, r.1) ∷ []
remove r (x ∷ xs) = if same r x then xs else x ∷ remove r xs

pub data Effect : Type 0 where
  nothing : Effect
  acquire release : Kind → ℕ → Effect

-- What a call with its answer does, by its documentation: pthread functions answer 0 on success,
-- functions that make a handle or an address answer 0 on failure.
abbrev pub effect : Call → ℕ → Effect
effect calloc a = if a == 0 then nothing else acquire block a
effect (free p) a = if p == 0 then nothing else release block p
effect mutexattr_init a = acquire mutex_attr 0
effect mutexattr_destroy a = release mutex_attr 0
effect (mutex_init t p) a = if a == 0 then acquire mutex p else nothing
effect (mutex_destroy p) a = release mutex p
effect (mutex_lock p) a = if a == 0 then acquire lock p else nothing
effect (mutex_trylock p) a = if a == 0 then acquire lock p else nothing
effect (mutex_unlock p) a = release lock p
effect condattr_init a = acquire cond_attr 0
effect condattr_destroy a = release cond_attr 0
effect (cond_init p) a = if a == 0 then acquire cond p else nothing
effect (cond_destroy p) a = release cond p
effect (rwlock_init p) a = if a == 0 then acquire rwlock p else nothing
effect (rwlock_destroy p) a = release rwlock p
effect (create_semaphore n m) a = if a == 0 then nothing else acquire kernel_object a
effect (close_handle h) a = release kernel_object h
effect (critical_init p) a = acquire critical p
effect (critical_delete p) a = release critical p
effect (critical_try_enter p) a = if a == 0 then nothing else acquire lock p
effect (critical_leave p) a = release lock p
effect (srw_acquire_exclusive p) a = acquire lock p
effect (srw_try_exclusive p) a = if a == 0 then nothing else acquire lock p
effect (srw_release_exclusive p) a = release lock p
effect (srw_acquire_shared p) a = acquire shared p
effect (srw_try_shared p) a = if a == 0 then nothing else acquire shared p
effect (srw_release_shared p) a = release shared p
effect (rwlock_rdlock p) a = if a == 0 then acquire shared p else nothing
effect (rwlock_tryrdlock p) a = if a == 0 then acquire shared p else nothing
effect (rwlock_wrlock p) a = if a == 0 then acquire lock p else nothing
effect (rwlock_trywrlock p) a = if a == 0 then acquire lock p else nothing
effect (create_thread p) a = if a == 0 then nothing else acquire kernel_object a
effect (pthread_create p) a = if a == 0 then acquire thread p else nothing
effect (pthread_join p) a = if a == 0 then release thread p else nothing
effect (pthread_detach p) a = if a == 0 then release thread p else nothing
effect duplicated_handle a = acquire kernel_object a
effect (malloc n) a = if a == 0 then nothing else acquire block a
effect (dispatch_create n) a = if a == 0 then nothing else acquire dispatch a
effect (dispatch_release h) a = release dispatch h
effect _ a = nothing

abbrev pub apply : Effect → List Resource → List Resource
apply nothing rs = rs
apply (acquire k p) rs = (k, p) ∷ rs
apply (release k p) rs = remove (k, p) rs

abbrev pub held : List (Call × ℕ) → List Resource
held [] = []
held ((c, a) ∷ h) = apply (effect c a) (held h)
