-- ===== src/EventLoop/Epoll.antt =====
-- event_loop_epoll.c: the flags of the interface as those of epoll, and back. The calls of the kernel are a
-- parameter.
use file_system_server.Base.{
  ℕ, ◌≡◌, refl, Bool, true, false, ◌||◌, List, Option, none, some, map, if◌then◌else◌,
}
use file_system_server.EventLoop.Flags.{event_read, event_write, event_error, has, with_flag}

-- A mask of epoll, by the flags that the file names.
pub record EpollEvents : Type 0 where
  pub epollet : Bool
  pub epollin : Bool
  pub epollout : Bool
  pub epollerr : Bool
  pub epollhup : Bool

abbrev pub to_epoll_events : ℕ → EpollEvents
to_epoll_events events = record {
  epollet = true;
  epollin = has events event_read;
  epollout = has events event_write;
  epollerr = false;
  epollhup = false;
}

-- The calls on an epoll descriptor: `true` is the result 0.
pub record Epoll : Type 1 where
  pub Loop : Type 0
  pub epoll_ctl_add : ℕ → EpollEvents → Loop → Bool × Loop
  pub epoll_ctl_mod : ℕ → EpollEvents → Loop → Bool × Loop
  pub epoll_ctl_del : ℕ → Loop → Bool × Loop
  pub epoll_wait : ℕ → Loop → Option (List (ℕ × EpollEvents)) × Loop

-- An entry that `epoll_wait` filled in, as the event that the program reads.
abbrev pub from_epoll_events : EpollEvents → ℕ
from_epoll_events e =
    let m0 = if e.epollin then with_flag 0 event_read else 0 in
    let m1 = if e.epollout then with_flag m0 event_write else m0 in
    if e.epollerr || e.epollhup then with_flag m1 event_error else m1

abbrev pub from_epoll_entry : ℕ × EpollEvents → ℕ × ℕ
from_epoll_entry (fd, e) = (fd, from_epoll_events e)

module _ (kernel : Epoll) where
  open kernel use {Loop, epoll_ctl_add, epoll_ctl_mod, epoll_ctl_del, epoll_wait}

  abbrev pub epoll_event_loop_add : ℕ → ℕ → Loop → Bool × Loop
  epoll_event_loop_add fd events loop = epoll_ctl_add fd (to_epoll_events events) loop

  abbrev pub epoll_event_loop_modify : ℕ → ℕ → Loop → Bool × Loop
  epoll_event_loop_modify fd events loop = epoll_ctl_mod fd (to_epoll_events events) loop

  abbrev pub epoll_event_loop_remove : ℕ → Loop → Bool × Loop
  epoll_event_loop_remove fd loop = epoll_ctl_del fd loop

  abbrev pub epoll_reported : Option (List (ℕ × EpollEvents)) × Loop → Option (List (ℕ × ℕ)) × Loop
  epoll_reported (none, loop) = (none, loop)
  epoll_reported (some entries, loop) = (some (map from_epoll_entry entries), loop)

  abbrev pub epoll_event_loop_wait : ℕ → Loop → Option (List (ℕ × ℕ)) × Loop
  epoll_event_loop_wait max_events loop = epoll_reported (epoll_wait max_events loop)

abbrev ReadsAs : ℕ → Bool → Bool → Bool → Type 0
ReadsAs mask i o x =
    (has mask event_read ≡ i) × (has mask event_write ≡ o) × (has mask event_error ≡ x)

mask_flags :
    (i o x : Bool)
    → let m0 = if i then with_flag 0 event_read else 0 in
      let m1 = if o then with_flag m0 event_write else m0 in
      ReadsAs (if x then with_flag m1 event_error else m1) i o x
mask_flags true true true = (refl, refl, refl)
mask_flags true true false = (refl, refl, refl)
mask_flags true false true = (refl, refl, refl)
mask_flags true false false = (refl, refl, refl)
mask_flags false true true = (refl, refl, refl)
mask_flags false true false = (refl, refl, refl)
mask_flags false false true = (refl, refl, refl)
mask_flags false false false = (refl, refl, refl)

-- The events that the program reads off an entry are those of the entry, an error standing for both
-- EPOLLERR and EPOLLHUP.
pub from_epoll_events_lem :
    (e : EpollEvents)
    → (has (from_epoll_events e) event_read ≡ e.epollin)
      × (has (from_epoll_events e) event_write ≡ e.epollout)
      × (has (from_epoll_events e) event_error ≡ (e.epollerr || e.epollhup))
from_epoll_events_lem e = mask_flags e.epollin e.epollout (e.epollerr || e.epollhup)
