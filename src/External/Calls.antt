-- ===== src/External/Calls.antt =====
-- The external functions that the sources call, one constructor each, with the arguments that matter.
-- An object inside a struct (a mutex, a condition variable) is named by the address of the struct.
use ccthread.Prelude.{ℕ, Bool, List}
use ccthread.Types.{RecursionType}

-- `struct timespec`
pub record Timespec : Type 0 where
  pub tv_sec : ℕ
  pub tv_nsec : ℕ

-- `clockid_t`, and which of the clocks <time.h> defines besides CLOCK_REALTIME
pub data ClockId : Type 0 where
  monotonic highres realtime : ClockId

pub record Clocks : Type 0 where
  pub has_monotonic : Bool
  pub has_highres : Bool

pub data Call : Type 0 where
  -- libc
  calloc : Call
  free : ℕ → Call
  clock_gettime_sec clock_gettime_nsec : ClockId → Call
  nanosleep : Timespec → Call
  sched_yield : Call
  -- pthread mutexes
  mutexattr_init mutexattr_settype_recursive mutexattr_destroy : Call
  mutex_init : RecursionType → ℕ → Call
  mutex_destroy mutex_lock mutex_trylock mutex_unlock : ℕ → Call
  -- pthread condition variables: the condition variable, then the mutex
  condattr_init condattr_destroy : Call
  condattr_setclock : ClockId → Call
  cond_init cond_destroy cond_signal cond_broadcast : ℕ → Call
  cond_wait : ℕ → ℕ → Call
  cond_timedwait cond_timedwait_relative : ℕ → ℕ → Timespec → Call
  -- pthread read-write locks
  rwlock_init rwlock_destroy rwlock_rdlock rwlock_tryrdlock : ℕ → Call
  rwlock_wrlock rwlock_trywrlock rwlock_unlock : ℕ → Call
  -- Win32 kernel objects
  create_semaphore : ℕ → ℕ → Call
  wait_for_single_object : ℕ → ℕ → Call
  release_semaphore close_handle : ℕ → Call
  get_last_error : Call
  sleep_ms : ℕ → Call
  switch_to_thread : Call
  -- Win32 locks and condition variables, by the address of the struct
  critical_init critical_delete critical_try_enter critical_leave : ℕ → Call
  srw_init srw_acquire_shared srw_try_shared srw_release_shared : ℕ → Call
  srw_acquire_exclusive srw_try_exclusive srw_release_exclusive : ℕ → Call
  cv_init cv_wake cv_wake_all : ℕ → Call
  cv_sleep_cs cv_sleep_srw : ℕ → ℕ → ℕ → Call
  -- Grand Central Dispatch
  dispatch_create dispatch_signal dispatch_release : ℕ → Call
  dispatch_wait_forever dispatch_wait_now : ℕ → Call
  dispatch_wait_until : ℕ → ℕ → Call
  dispatch_time : ℕ → Call
  -- the calling thread
  gettid pthread_self get_current_thread get_current_process : Call
  macos_threadid_rc macos_threadid : Call
  -- threads: a thread is started on the struct at an address, and then named by its handle
  pthread_create create_thread : ℕ → Call
  pthread_join pthread_detach : ℕ → Call
  exit_thread pthread_exit : ℕ → Call
  duplicate_handle duplicated_handle : Call
  pthread_equal : ℕ → ℕ → Call
  -- thread names: the handle, and the bytes before the terminating NUL
  pthread_setname : ℕ → List ℕ → Call
  pthread_setname_self : List ℕ → Call
  get_module_handle : Call
  get_proc_address : ℕ → Call
  raise_name_exception : ℕ → List ℕ → Call
  multi_byte_length : List ℕ → Call
  malloc : ℕ → Call
  multi_byte_convert : List ℕ → ℕ → Call
  set_thread_description : ℕ → ℕ → Call
