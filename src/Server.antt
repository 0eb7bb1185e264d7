-- ===== src/Server.antt =====
-- server.c: the connections, their handlers and the event loop.
mod State
pub mod Names
pub mod Listing
pub mod Response
pub mod Put
pub mod Get
pub mod Delete
pub mod Answer
pub mod Header
pub mod Events
pub mod Loop
pub mod Setup
pub mod Invariant
unfoldable pub use State.*
