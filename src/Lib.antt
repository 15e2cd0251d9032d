-- ===== src/Lib.antt =====
-- ccthread: portable threads, mutexes, spinlocks, read-write locks, condition variables and
-- semaphores over Win32 and pthreads.
--
-- Parts of the program, and the files that model them:
--   * ccatomic.h, the atomic macros: Atomic. Toolchain is the compiler that the header's
--     conditionals select. Spinlock, Once and Lifecycle treat each atomic operation, and each
--     plain access to a shared field, as one step.
--   * ccspinlock.c: Spinlock. Threads has the struct, and one step for each access that
--     ccspinlock_trylock and ccspinlock_unlock make, for any number of threads;
--     ccspinlock_lock is repeated attempts. Calls has each call as one function of the struct.
--     Collision runs the steps with thread ids of ccthread_gettid.
--   * ccthread_once of ccthread.c: Once, in the same two forms; the block carries counts of
--     how often the callback was entered and left.
--   * ccthread_wrapper, ccthread_join and ccthread_detach of ccthread.c, where the new thread
--     and its owner share one struct: Lifecycle. Race has their accesses in every
--     interleaving, with counts of frees and of closed handles and a mark for a use of freed
--     memory, where reads find arbitrary values. The end of ccthread_exit makes the accesses of the end of ccthread_wrapper.
--     Alone, Stages and Refinement compare them with the calls in Thread.
--   * the other calls of ccthread.c: Thread. Create has create, join, detach, gettid and
--     sleep, Finish has the wrapper and exit, Identity has self and equal, Name has set_name.
--     ccthread_yield is beside its caller in Mutex.
--   * ccsem.c: Sem. Create has create and destroy, Posix the operations on a pthread mutex and
--     a condition variable, Native those on Win32 and on macOS and the choice between the
--     three. Permits has the abstract counter. Threads has wait, trywait, timedwait and post
--     on POSIX under a bounded number of threads, over an interface Monitor of the mutex and
--     its condition variable: waits end by a signal, spuriously or by a timeout, and no call
--     fails otherwise.
--   * ccmutex.c: Mutex. cccondvar.c: Condvar, which asks Mutex for the type of the mutex.
--   * ccrwlock.c: Rwlock. Calls has the calls; Threads has the Windows lock with its owner
--     field under a bounded number of threads, over an interface SrwLock of the slim
--     read-write lock.
--   * the deadline of ccsem_timedwait and cccondvar_timedwait: Deadline.
--   * the clock that both files select, CCMUTEX_CLOCK_ID and CCCONDVAR_CLOCK_ID: Clock, with
--     the clock that a condition variable sleeps by. Sem.Deadline has the sleeps of
--     ccsem_timedwait.
--   * examples: Examples, clients of the above. Counter is ccspinlock_basic.c, on the steps of
--     Spinlock.Threads, with its last demonstration on Spinlock.Calls in Trylock, and Readers
--     is ccrwlock_basic.c, on those of Rwlock.Threads. Buffer is ccsem_producer_consumer.c, on
--     the permits of Sem.Permits. Queue is the queue of cccondvar_basic.c under a bounded
--     number of threads, over an interface Monitor of a mutex with two condition variables;
--     its Create makes and destroys it with the calls of Mutex and Condvar. Ring is the ring
--     of slots of Buffer and Queue. Polling is poll_demo and periodic_demo of ccsem_timeout.c,
--     on Sem.Native. Mutexes is the two halves of main of ccmutex_basic.c, on Mutex.Calls.
--     OnceTests is the sequential part of ccthread_once.c, on Once.Calls; its Concurrent is
--     test_concurrent, on the steps of Once.Threads, with the thread that creates and joins
--     the others. LifecycleTests is test_self_identity and test_error_paths of
--     ccthread_lifecycle.c, on Thread; its Stress is the tests that join, on the steps of
--     Lifecycle.Race, with an allocator of integers that answers with any unused block or
--     NULL.
--   * ccmutex_state_t, ccrecursion_t, the return codes and the platforms: Types.
--
-- External is what the repository does not hold: libc, pthreads, Win32 and dispatch semaphores.
-- A Call is one external function with its arguments. A Prog runs over the heap of structs and
-- the history of calls; an Env answers each call arbitrarily, and lets other threads change the
-- heap while a call lasts. Ledger reads off a history, by the documentation of each call, what
-- it leaves held: allocations, initialised objects, handles, threads and locks. `held` is that
-- list, and Amounts counts a resource in it.
--
-- Bounds and fuel. Numbers are naturals; `recursion` is bounded by INT_MAX, where its increment
-- is undefined in C and stops the thread in the model, and `count` wraps at 2^32. Loops run on
-- fuel: ccspinlock_lock, ccmutex_lock, ccsem_wait, ccsem_timedwait and ccthread_once. Enough is
-- one round for each failed attempt or wake-up and one for the success. ccthread_once on a fresh
-- or finished block needs two; the loop of periodic_demo makes at most five rounds.
--
-- Not modelled: weak memory (every access is sequentially consistent), the pause hint, the
-- choice of thread-local storage by the preprocessor, the build, and of the examples what they
-- print, how main starts and joins its threads (but for test_concurrent and the tests in
-- Stress), timed_demo, the tests whose outcome is that they end, and the demonstrations that
-- only print.

pub mod Prelude
pub mod Types
pub mod Atomic
pub mod External
pub mod Clock
pub mod Deadline
pub mod Spinlock
pub mod Once
pub mod Lifecycle
pub mod Sem
pub mod Mutex
pub mod Condvar
pub mod Rwlock
pub mod Thread
pub mod Examples
