-- ===== src/Lifecycle.antt =====
-- The life of a `ccthread_t` that `ccthread_create` made (ccthread.c): the new thread in
-- ccthread_wrapper or ccthread_exit, against its owner in ccthread_join or ccthread_detach.
pub mod Race
pub mod Detached
pub mod Apart
pub mod Joined
pub mod Alone
pub mod Stages
pub mod Refinement
mod Tests
