-- ===== src/Sem.antt =====
-- ccsem.c: the counting semaphore. `Create` has its making and unmaking, `Posix` the operations on a
-- mutex and a condition variable, `Native` those on Win32 and macOS, `Threads` a
-- bounded number of threads on one POSIX semaphore.
pub mod Create
pub mod Balance
pub mod Posix
pub mod Native
pub mod Locking
pub mod Waiting
pub mod Deadline
pub mod Permits
pub mod Threads
pub mod Invariant
pub mod Safety
mod Tests
mod Schedules
