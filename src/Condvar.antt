-- ===== src/Condvar.antt =====
-- cccondvar.c: the condition variable, on CONDITION_VARIABLE or pthread_cond_t.
pub mod Calls
pub mod Laws
mod Tests
