-- ===== src/Sessions.antt =====
-- A client and the server together: what one of them sends is what the other makes of it.
pub mod Sending
pub mod Put
pub mod Get
pub mod Listing
pub mod Delete
pub mod PutGet
pub mod Paced
pub mod Arrivals
pub mod Pieces
pub mod PacedPutGet
