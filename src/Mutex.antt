-- ===== src/Mutex.antt =====
-- ccmutex.c: the mutex over SRWLOCK, CRITICAL_SECTION or pthread_mutex_t.
pub mod Calls
pub mod Laws
mod Tests
