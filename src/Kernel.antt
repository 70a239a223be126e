-- ===== src/Kernel.antt =====
-- What the drivers ask of the kernel: error numbers, copies to and from user memory, and the calls
-- that acquire and release a resource.
pub mod Errno
pub mod Regmap
pub mod User
pub mod FlatCopy
pub mod Ledger
