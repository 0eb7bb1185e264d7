-- ===== src/EventLoop.antt =====
-- event_loop.h: the masks of events.
mod Flags
pub mod Epoll
pub mod Kqueue
pub mod Backends
unfoldable pub use Flags.*
