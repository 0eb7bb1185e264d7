-- ===== src/Client.antt =====
-- client.c: the command line, the requests and what is made of the answers.
mod State
pub mod Terminal
pub mod Args
pub mod Answer
pub mod Handlers
pub mod Main
pub mod Connect
pub mod Requests
pub mod Download
unfoldable pub use State.*
