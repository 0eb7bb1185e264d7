-- ===== src/Tests/Wire.antt =====
-- Runs of the transfers and of the event loops.
use file_system_server.Common.WriteAll.{write_all_to_socket, write_all_to_socket_whole}
use file_system_server.Common.ReadLine.{LineRead, read_line_from_socket, read_line_from_socket_lem}
use file_system_server.EventLoop.{event_write}
use file_system_server.EventLoop.Backends.{DocumentedEpoll, event_loop_modify-agrees}
use file_system_server.EventLoop.Epoll.{Epoll, epoll_event_loop_modify, EpollEvents}
use file_system_server.EventLoop.Kqueue.{
  Filter, evfilt_read, evfilt_write, Change, ev_add_enable, ev_delete, changed, enoent, Kqueue,
  same_filter, is_add, Documented, kqueue_event_loop_modify, update_filter,
}
use file_system_server.Base.{
  true-false, Option, ◌++◌, newline, Bool, true, false, ◌≡◌, refl, List, [], ◌∷◌, none, some, arith,
  take, drop,
}
use file_system_server.Os.{Socket, accepts, interrupts, Recv, bytes, interrupted, stream, ending}
use file_system_server.Common.ReadAll.{read_all_from_socket, read_all_from_socket_enough}

abbrev two_parts : List Recv
two_parts = bytes 1 (2 ∷ []) ∷ interrupted ∷ bytes 3 (4 ∷ []) ∷ []

read_all_from_socket_enough_example :
    let out = read_all_from_socket 3 two_parts in
    (out.0 ≡ some (take 3 (stream two_parts)))
    × (stream out.1 ≡ drop 3 (stream two_parts))
    × (ending out.1 ≡ ending two_parts)
read_all_from_socket_enough_example = read_all_from_socket_enough 3 two_parts (omega arith)

-- Two bytes, then an interruption, then room for more.
abbrev roomy : Socket
roomy = record { incoming = []; outcomes = accepts 2 ∷ interrupts ∷ accepts 9 ∷ []; sent = 7 ∷ [] }

write_all_to_socket_whole_example :
    let out = write_all_to_socket (1 ∷ 2 ∷ 3 ∷ []) roomy in
    (out.0 ≡ some 3) × (out.1.sent ≡ (7 ∷ []) ++ 1 ∷ 2 ∷ 3 ∷ [])
write_all_to_socket_whole_example = write_all_to_socket_whole (1 ∷ 2 ∷ 3 ∷ []) roomy (omega arith)

-- `OK` in two pieces, with a byte behind it.
abbrev ok_line : List Recv
ok_line = bytes 79 [] ∷ interrupted ∷ bytes 75 (newline ∷ 5 ∷ []) ∷ []

read_line_from_socket_example :
    LineRead (79 ∷ 75 ∷ []) (5 ∷ []) [] ok_line (read_line_from_socket 1024 ok_line)
read_line_from_socket_example =
    read_line_from_socket_lem 1024 (79 ∷ 75 ∷ []) (5 ∷ []) ok_line (refl, (refl, tt)) refl
      (omega arith)

-- A queue for one descriptor: whether its two filters are watched.
abbrev set_filter : Filter → Bool → Bool × Bool → Bool × Bool
set_filter evfilt_read b (r, w) = (b, w)
set_filter evfilt_write b (r, w) = (r, b)

abbrev is_add_change : Change → Bool
is_add_change ev_add_enable = true
is_add_change ev_delete = false

abbrev watched_filter : Filter → Bool × Bool → Bool
watched_filter evfilt_read q = q.0
watched_filter evfilt_write q = q.1

abbrev two_filters : Kqueue
two_filters = record {
  Loop = Bool × Bool;
  kevent_change = λ fd filter flags q. (changed, set_filter filter (is_add_change flags) q);
  kevent_wait = λ n q. (none, q);
}

two_filters-Documented : Documented two_filters
two_filters-Documented = record {
  watched = λ fd. watched_filter;
  accepted = λ fd filter flags q h. set_same filter flags q;
  missing = λ fd filter flags q h. absurd (not_missing h);
  others = λ fd filter filter' flags q h. set_other filter filter' flags q h;
}
  where
    set_same :
        (filter : Filter) (flags : Change) (q : Bool × Bool)
        → watched_filter filter (set_filter filter (is_add_change flags) q) ≡ is_add flags
    set_same evfilt_read ev_add_enable q = refl
    set_same evfilt_read ev_delete q = refl
    set_same evfilt_write ev_add_enable q = refl
    set_same evfilt_write ev_delete q = refl

    not_missing : changed ≡ enoent → ⊥
    not_missing h = ground arith

    set_other :
        (filter filter' : Filter) (flags : Change) (q : Bool × Bool)
        → same_filter filter filter' ≡ false
        → watched_filter filter' (set_filter filter (is_add_change flags) q)
          ≡ watched_filter filter' q
    set_other evfilt_read evfilt_read flags q h = absurd (true-false h)
    set_other evfilt_read evfilt_write flags q h = refl
    set_other evfilt_write evfilt_read flags q h = refl
    set_other evfilt_write evfilt_write flags q h = absurd (true-false h)

abbrev kept_entry : Epoll
kept_entry = record {
  Loop = Option EpollEvents;
  epoll_ctl_add = λ fd events q. (true, some events);
  epoll_ctl_mod = λ fd events q. (true, some events);
  epoll_ctl_del = λ fd q. (true, none);
  epoll_wait = λ n q. (none, q);
}

abbrev kept_entry-Documented : DocumentedEpoll kept_entry
kept_entry-Documented = record { interest = λ fd q. q; modified = λ fd events q h. refl }

event_loop_modify-agrees_example :
    let k' = (kqueue_event_loop_modify two_filters 5 event_write (true, false)).1 in
    (entry : EpollEvents) × (kept_entry-Documented.interest 5
        (epoll_event_loop_modify kept_entry 5 event_write none).1
      ≡ some entry)
    × (two_filters-Documented.watched 5 evfilt_read k' ≡ entry.epollin)
    × (two_filters-Documented.watched 5 evfilt_write k' ≡ entry.epollout)
unfolding kqueue_event_loop_modify update_filter
event_loop_modify-agrees_example =
    event_loop_modify-agrees kept_entry two_filters kept_entry-Documented two_filters-Documented 5
      event_write none (true, false) refl refl
