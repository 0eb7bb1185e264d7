-- ===== src/Server/Invariant/Polling.antt =====
-- The events that epoll reports, served by the loop of server.c.
use file_system_server.Base.{ℕ, ◌≡◌, true}
use file_system_server.EventLoop.Epoll.{EpollEvents, to_epoll_events}

-- What epoll documents of EPOLLIN and EPOLLOUT: an entry has them only where they were asked for.
pub record Asked (events : ℕ) (e : EpollEvents) : Type 0 where
  pub reading : e.epollin ≡ true → (to_epoll_events events).epollin ≡ true
  pub writing : e.epollout ≡ true → (to_epoll_events events).epollout ≡ true
