-- ===== src/EventLoop/Backends.antt =====
-- The two implementations of event_loop.h side by side.
use file_system_server.Base.{ℕ, ◌≡◌, true, Option, some}
use file_system_server.EventLoop.Epoll.{
  Epoll, EpollEvents, to_epoll_events, epoll_event_loop_modify,
}
use file_system_server.EventLoop.Kqueue.{
  Kqueue, Documented, evfilt_read, evfilt_write, kqueue_event_loop_modify,
  kqueue_event_loop_modify_lem,
}

-- What epoll documents of `EPOLL_CTL_MOD`: where it succeeds, the events of the descriptor are the new ones.
pub record DocumentedEpoll (kernel : Epoll) : Type 0 where
  pub interest : ℕ → kernel.Loop → Option EpollEvents
  pub modified :
      (fd : ℕ) (events : EpollEvents) (loop : kernel.Loop)
      → (kernel.epoll_ctl_mod fd events loop).0 ≡ true
      → interest fd (kernel.epoll_ctl_mod fd events loop).1 ≡ some events

-- On kernels that do what they document: where `event_loop_modify` returns 0 with either implementation, the
-- descriptor is watched for the same: epoll has one entry for it, and kqueue's filters for reading and for
-- writing are on exactly as that entry says, whatever was watched before.
pub event_loop_modify-agrees :
    (epoll : Epoll) (kqueue : Kqueue) (on_epoll : DocumentedEpoll epoll)
    (on_kqueue : Documented kqueue) (fd events : ℕ) (e : epoll.Loop) (k : kqueue.Loop)
    → (epoll_event_loop_modify epoll fd events e).0 ≡ true
    → (kqueue_event_loop_modify kqueue fd events k).0 ≡ true
    → let k' = (kqueue_event_loop_modify kqueue fd events k).1 in
      (entry : EpollEvents) × (on_epoll.interest fd (epoll_event_loop_modify epoll fd events e).1
        ≡ some entry)
      × (on_kqueue.watched fd evfilt_read k' ≡ entry.epollin)
      × (on_kqueue.watched fd evfilt_write k' ≡ entry.epollout)
event_loop_modify-agrees epoll kqueue on_epoll on_kqueue fd events e k done_e done_k =
    let (reads, writes) = kqueue_event_loop_modify_lem kqueue on_kqueue fd events k done_k in
    (to_epoll_events events, on_epoll.modified fd (to_epoll_events events) e done_e, reads, writes)
