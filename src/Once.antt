-- ===== src/Once.antt =====
-- ccthread_once in ccthread.c: one-time initialisation. `Threads` has the call cut into its shared
-- accesses, `Calls` the whole call while no other thread moves.
pub mod Threads
pub mod Invariant
pub mod Safety
pub mod Calls
pub mod Laws
mod Tests
