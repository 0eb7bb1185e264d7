-- ===== src/Common.antt =====
-- common.h and common.c: the verbs, and whole transfers over a blocking socket.
mod Verbs
pub mod ReadAll
pub mod WriteAll
pub mod ReadLine
pub use Verbs.*
