-- ===== src/Kernel/Ledger.antt =====
-- The calls by which the drivers acquire and release what the kernel keeps for them, as a log, and
-- the ledger that the log adds up to. The kernel decides how each request ends.
mod Resources
mod Calls
mod Bags
mod Rules
unfoldable pub use Resources.*
unfoldable pub use Calls.*
pub use Bags.*
pub use Rules.*
