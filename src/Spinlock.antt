-- ===== src/Spinlock.antt =====
-- ccspinlock.c: the busy-wait lock. `Threads` has the calls cut into their shared accesses.
pub mod Threads
pub mod Invariant
pub mod Safety
pub mod Collision
pub mod Calls
pub mod Laws
mod Tests
