-- ===== src/Examples.antt =====
-- The programs under examples/ as clients of the library.
pub mod Counter
pub mod Ring
pub mod Buffer
pub mod Queue
pub mod Readers
pub mod LifecycleTests
pub mod Mutexes
pub mod Polling
pub mod OnceTests
