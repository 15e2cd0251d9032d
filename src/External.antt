-- ===== src/External.antt =====
-- What the sources call and do not implement (libc, pthreads, Win32, Grand Central Dispatch): every
-- such call is an event, and its answer comes from an environment over which theorems quantify.
-- `Calls` lists the calls, `Program` is the state monad of the modelled functions, `Ledger` reads off
-- a history which resources are held; `Amounts` counts them.
mod Calls
mod Program
mod Ledger
pub mod Amounts
pub mod Samples
unfoldable pub use Calls.*
unfoldable pub use Program.*
unfoldable pub use Ledger.*
