-- ===== src/Thread.antt =====
-- ccthread.c outside the races: making a thread, its identity, its name, sleeping.
pub mod Create
pub mod Identity
pub mod Name
pub mod Finish
pub mod Laws
pub mod SelfLaws
pub mod FinishLaws
pub mod NameLaws
pub mod NameCalls
mod Tests
