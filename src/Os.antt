-- ===== src/Os.antt =====
-- The operating system as the program sees it: what `read` and `write` may return, as a list of
-- outcomes that the environment chooses, and the file system as a parameter.
mod Types
mod Reads
mod Writes
pub mod Kernel
pub mod Descriptors
unfoldable pub use Types.*
pub use Reads.*
pub use Writes.*
