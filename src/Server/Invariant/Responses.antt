-- ===== src/Server/Invariant/Responses.antt =====
-- The responses keep the invariant of a connection.
use file_system_server.Base.{
  ℕ, ◌+◌, ◌-◌, ◌≡◌, refl, sym, subst, ◌⊎◌, inr, Bool, true, false, List, Option, none, some, arith,
  length-take, ◌==◌,
}
use file_system_server.Common.{Verb, get, put, delete, list, v_unknown}
use file_system_server.EventLoop.{event_read, event_write}
use file_system_server.Format.{err_bad_request}
use file_system_server.Os.{
  WriteResult, wrote, would_block, write_failed, write_interrupted, write, FileSystem,
}
use file_system_server.Server.State.{
  ConnState, recv_header, recv_put_size, recv_put_data, send_ok, send_error, send_get_size,
  send_get_data, send_list_data, done, Machine, modify_event_loop, max_header_len,
}
use file_system_server.Server.Listing.{build_list_buffer}
use file_system_server.Server.Response.{
  Status, ok, error, status_text, prepare_client, prepare_response, response_advanced,
  response_left, ok_sent, response_sent, execute_write, start_send_list, list_ready,
  execute_simple_response_write, prepare_and_send_response,
}
use file_system_server.Server.Invariant.{
  Watches, Going, Going-client, Served, IsLive, live-Served, either-Served, closed-Served,
  finish-Served,
}

-- The states in which a status line is being sent.
abbrev pub Responding : ConnState → Type 0
Responding send_ok = Unit
Responding send_error = Unit
Responding _ = ⊥

-- Whatever the state, a live connection that starts to respond is watched.
Watches-Responding :
    (f : Bool) (st : ConnState) (i : Option ℕ)
    → Responding st
    → (i ≡ some event_read) ⊎ (i ≡ some event_write)
    → Watches f st i
Watches-Responding true st i r h = tt
Watches-Responding false send_ok i r h = h
Watches-Responding false send_error i r h = h
Watches-Responding false recv_header i r h = absurd r
Watches-Responding false recv_put_size i r h = absurd r
Watches-Responding false recv_put_data i r h = absurd r
Watches-Responding false send_get_size i r h = absurd r
Watches-Responding false send_get_data i r h = absurd r
Watches-Responding false send_list_data i r h = absurd r
Watches-Responding false done i r h = absurd r

module _ (fs : FileSystem) (m0 : Machine fs.Disk) where
  open fs use {Disk}

  -- A status line is cut to the size of its buffer.
  prepare_response-IsLive :
      (status : Status) (m : Machine Disk) → IsLive m0 m → IsLive m0 (prepare_response status m)
  prepare_response-IsLive status m (f, i, g) = (
    f,
    i,
    Going-client fs m0 m (prepare_client status m.client) g refl
        (λ (h, n, r). (h, n, omega (arith, length-take (max_header_len - 1) (status_text status)))),
  )

  Responding-Served : (m : Machine Disk) → Responding m.client.state → IsLive m0 m → Served m0 m
  Responding-Served m r (f, i, g) =
      live-Served fs m0 m f (Watches-Responding m.freed m.client.state m.interest r i) g

  -- A live connection that comes to wait for room in another state.
  waiting-Served :
      (m : Machine Disk)
      → m.freed ≡ false
      → Watches false m.client.state m.interest
      → Going m0 m
      → Served m0 m
  waiting-Served m f w g =
      live-Served fs m0 m f (subst (λ b. Watches b m.client.state m.interest) (sym f) w) g

  ok_sent-Served :
      (start : Machine Disk → Machine Disk) (v : Verb) (m : Machine Disk)
      → IsLive m0 m
      → Served m0 (start m)
      → Served m0 (ok_sent fs start v m)
  unfolding ok_sent
  ok_sent-Served start list m h s = s
  ok_sent-Served start get m (f, i, g) s =
      waiting-Served
        (modify_event_loop event_write (record m {
          client = record m.client {
            simple_response_len = 0;
            simple_response_sent = 0;
            state = send_get_size;
          };
        }))
        f refl g
  ok_sent-Served start put m (f, i, g) s = finish-Served fs m0 m g
  ok_sent-Served start delete m (f, i, g) s = finish-Served fs m0 m g
  ok_sent-Served start v_unknown m (f, i, g) s = finish-Served fs m0 m g

  response_sent-Served :
      (start : Machine Disk → Machine Disk) (st : ConnState) (m : Machine Disk)
      → Responding st
      → IsLive m0 m
      → Served m0 (start m)
      → Served m0 (response_sent fs start st m)
  unfolding response_sent
  response_sent-Served start send_ok m r h s = ok_sent-Served start m.client.request_verb m h s
  response_sent-Served start send_error m r (f, i, g) s = finish-Served fs m0 m g
  response_sent-Served start recv_header m r h s = absurd r
  response_sent-Served start recv_put_size m r h s = absurd r
  response_sent-Served start recv_put_data m r h s = absurd r
  response_sent-Served start send_get_size m r h s = absurd r
  response_sent-Served start send_get_data m r h s = absurd r
  response_sent-Served start send_list_data m r h s = absurd r
  response_sent-Served start done m r h s = absurd r

  execute_write-Served :
      (start : Machine Disk → Machine Disk)
      → ((m : Machine Disk) → Responding m.client.state → IsLive m0 m → Served m0 (start m))
      → (m : Machine Disk) → Responding m.client.state
      → IsLive m0 m
      → Served m0 (execute_write fs start m)
  unfolding execute_write
  execute_write-Served start keep m r live = go (write (response_left m.client) m.socket) refl
    where
      go :
          (w : WriteResult)
          → write (response_left m.client) m.socket ≡ w
          → Served m0 (execute_write fs start m)
      go (would_block s) e =
          rw (e, execute_write) (Responding-Served (record m { socket = s }) r live)
      go (write_failed s) e =
          rw (e, execute_write) (closed-Served fs m0 (record m { socket = s }) live.2)
      go (write_interrupted s) e =
          rw (e, execute_write) (closed-Served fs m0 (record m { socket = s }) live.2)
      go (wrote n s) e =
          rw (e, execute_write)
            (either-Served fs m0 (m.client.simple_response_sent + n == m.client.simple_response_len)
              (response_sent fs start m.client.state (response_advanced n s m))
              (modify_event_loop event_write (response_advanced n s m))
              (response_sent-Served start m.client.state (response_advanced n s m) r live
                (keep (response_advanced n s m) r live))
              (Responding-Served (modify_event_loop event_write (response_advanced n s m)) r
                (live.0, inr refl, live.2)))

  start_send_list-Served : (m : Machine Disk) → IsLive m0 m → Served m0 (start_send_list fs m)
  unfolding start_send_list
  start_send_list-Served m live = go (build_list_buffer m.memory m.server_files) refl
    where
      go :
          (o : Option (List ℕ × ℕ))
          → build_list_buffer m.memory m.server_files ≡ o
          → Served m0 (start_send_list fs m)
      go none e =
          rw (e, start_send_list)
            (execute_write-Served (λ m'. m') (λ m' r l. Responding-Served m' r l)
              (prepare_response (error err_bad_request) m) tt
              (prepare_response-IsLive (error err_bad_request) m live))
      go (some (buffer, len)) e =
          rw (e, start_send_list) (waiting-Served (list_ready fs buffer len m) live.0 refl live.2)

  pub execute_simple_response_write-Served :
      (m : Machine Disk)
      → Responding m.client.state
      → IsLive m0 m
      → Served m0 (execute_simple_response_write fs m)
  unfolding execute_simple_response_write
  execute_simple_response_write-Served m r live =
      execute_write-Served (start_send_list fs) (λ m' r' l. start_send_list-Served m' l) m r live

  pub prepare_and_send_response-Served :
      (status : Status) (m : Machine Disk)
      → IsLive m0 m
      → Served m0 (prepare_and_send_response fs status m)
  unfolding prepare_and_send_response
  prepare_and_send_response-Served ok m live =
      execute_simple_response_write-Served (prepare_response ok m) tt
        (prepare_response-IsLive ok m live)
  prepare_and_send_response-Served (error msg) m live =
      execute_simple_response_write-Served (prepare_response (error msg) m) tt
        (prepare_response-IsLive (error msg) m live)
