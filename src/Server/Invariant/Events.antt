-- ===== src/Server/Invariant/Events.antt =====
-- One event keeps the invariant on the watched events, and never uses freed memory.
use file_system_server.Base.{
  arith, ℕ, ◌≡◌, refl, inl, inr, Bool, true, false, Option, some, Bool-cases,
}
use file_system_server.EventLoop.{event_read, event_write, event_error, has}
use file_system_server.Os.{weight, FileSystem}
use file_system_server.Server.State.{
  ConnState, recv_header, recv_put_size, recv_put_data, send_ok, send_error, send_get_size,
  send_get_data, send_list_data, done, Machine, close_and_cleanup,
}
use file_system_server.Server.Header.{read_event, handle_read_event}
use file_system_server.Server.Events.{
  is_recv_header, write_event, handle_write_event, write_part, dispatch_event,
}
use file_system_server.Server.Invariant.{
  IsWatched, IsSound, Going, Kept, Served, live-Served, closed-Served,
}
use file_system_server.Server.Invariant.Responses.{execute_simple_response_write-Served}
use file_system_server.Server.Invariant.Uploads.{recv_put_size-Served, recv_put_data-Served}
use file_system_server.Server.Invariant.Downloads.{
  send_get_size-Served, send_get_data-Served, send_list_data-Served,
}
use file_system_server.Server.Invariant.Requests.{recv_header_loop-Served}

-- What the event loop may report for a connection: nothing that is not watched, but for an error.
abbrev pub Reported : ℕ → Option ℕ → Type 0
Reported mask i =
    (has mask event_read ≡ true → i ≡ some event_read)
    × (has mask event_write ≡ true → i ≡ some event_write)

module _ (fs : FileSystem) (m0 : Machine fs.Disk) where
  open fs use {Disk}

  read_event-Served :
      (m : Machine Disk) (st : ConnState)
      → m.client.state ≡ st
      → m.freed ≡ false
      → m.interest ≡ some event_read
      → Going m0 m
      → IsWatched m
      → Served m0 (read_event fs st m)
  unfolding read_event
  read_event-Served m recv_header e f i g w =
      recv_header_loop-Served fs m0 (weight m.socket.incoming) m (rw e tt) (f, i, g)
  read_event-Served m recv_put_size e f i g w = recv_put_size-Served fs m0 m (rw e tt) (f, i, g)
  read_event-Served m recv_put_data e f i g w = recv_put_data-Served fs m0 m (rw e tt) (f, i, g)
  read_event-Served m send_ok e f i g w = live-Served fs m0 m f w g
  read_event-Served m send_error e f i g w = live-Served fs m0 m f w g
  read_event-Served m send_get_size e f i g w = live-Served fs m0 m f w g
  read_event-Served m send_get_data e f i g w = live-Served fs m0 m f w g
  read_event-Served m send_list_data e f i g w = live-Served fs m0 m f w g
  read_event-Served m done e f i g w = live-Served fs m0 m f w g

  write_event-Served :
      (m : Machine Disk) (st : ConnState)
      → m.client.state ≡ st
      → m.freed ≡ false
      → m.interest ≡ some event_write
      → Going m0 m
      → IsWatched m
      → Served m0 (write_event fs st m)
  unfolding write_event
  write_event-Served m send_ok e f i g w =
      execute_simple_response_write-Served fs m0 m (rw e tt) (f, inr i, g)
  write_event-Served m send_error e f i g w =
      execute_simple_response_write-Served fs m0 m (rw e tt) (f, inr i, g)
  write_event-Served m send_list_data e f i g w = send_list_data-Served fs m0 m (rw e tt) (f, i, g)
  write_event-Served m send_get_size e f i g w = send_get_size-Served fs m0 m (rw e tt) (f, i, g)
  write_event-Served m send_get_data e f i g w = send_get_data-Served fs m0 m (rw e tt) (f, i, g)
  write_event-Served m recv_header e f i g w = live-Served fs m0 m f w g
  write_event-Served m recv_put_size e f i g w = live-Served fs m0 m f w g
  write_event-Served m recv_put_data e f i g w = live-Served fs m0 m f w g
  write_event-Served m done e f i g w = live-Served fs m0 m f w g

  read_and_write : (i : Option ℕ) → i ≡ some event_read → i ≡ some event_write → ⊥
  read_and_write i r w = ground arith

  -- An event that the loop may report, on a live connection that has come from `m0`.
  pub dispatch_event-Served :
      (mask : ℕ) (m : Machine Disk)
      → m.freed ≡ false
      → IsWatched m
      → Going m0 m
      → Reported mask m.interest
      → (m' : Machine Disk) × (dispatch_event fs mask m ≡ some m') × Served m0 m'
  unfolding dispatch_event write_part handle_read_event handle_write_event
  dispatch_event-Served mask m f w g rep = elim (Bool-cases (has mask event_error)) [
    | inl x ↦ (close_and_cleanup fs m, rw x, closed-Served fs m0 m g)
    | inr x ↦ elim (Bool-cases (has mask event_read)) [
      | inl r ↦ elim (Bool-cases (has mask event_write)) [
        | inl wr ↦ absurd (read_and_write m.interest (rep.0 r) (rep.1 wr))
        | inr nw ↦ (
          read_event fs m.client.state m,
          rw (x, r, nw),
          read_event-Served m m.client.state refl f (rep.0 r) g w,
        )
      ]
      | inr nr ↦ elim (Bool-cases (has mask event_write)) [
        | inl wr ↦ elim (Bool-cases (is_recv_header m.client.state)) [
          | inl h ↦ (m, rw (x, nr, wr, f, h), live-Served fs m0 m f w g)
          | inr h ↦ (
            write_event fs m.client.state m,
            rw (x, nr, wr, f, h),
            write_event-Served m m.client.state refl f (rep.1 wr) g w,
          )
        ]
        | inr nw ↦ (m, rw (x, nr, nw), live-Served fs m0 m f w g)
      ]
    ]
  ]

module _ (fs : FileSystem) where
  open fs use {Disk}

  Kept-IsSound : (b : Bool) (m m' : Machine Disk) → Kept b m m' → IsSound m → IsSound m'
  Kept-IsSound true m m' k s = k.2 s
  Kept-IsSound false m m' k s = k.3 s

  -- For such an event and connection, on a server with memory whose list has each name once and whose
  -- connection's buffers are within their bounds: afterwards the list has each name once, and the
  -- request line, the file name and the response are still shorter than their buffers.
  pub dispatch_event-IsSound :
      (mask : ℕ) (m : Machine Disk)
      → m.freed ≡ false
      → IsWatched m
      → Reported mask m.interest
      → IsSound m
      → (m' : Machine Disk) × (dispatch_event fs mask m ≡ some m') × IsSound m'
  dispatch_event-IsSound mask m f w rep s =
      let (m', served, now) =
        dispatch_event-Served fs m mask m f w (refl, refl, refl, λ z. z) rep in
      (m', served, Kept-IsSound m'.freed m m' now.1 s)
