-- ===== src/Rwlock.antt =====
-- ccrwlock.c: the read-write lock, on SRWLOCK with a writer's thread id or on pthread_rwlock_t.
pub mod Calls
pub mod Laws
pub mod Threads
pub mod Invariant
pub mod Safety
pub mod Samples
mod Tests
