-- ===== src/Server/Response.antt =====
-- server.c: the status line, and the handler that writes it.
pub mod Delivery
pub mod Stall
use file_system_server.Base.{
  ℕ, ◌+◌, ◌-◌, Bool, true, false, List, [], ◌∷◌, ◌++◌, Option, none, some, length, take, drop,
  codes, newline, leb, ◌==◌, if◌then◌else◌,
}
use file_system_server.Common.{Verb, get, put, delete, list, v_unknown}
use file_system_server.Format.{err_bad_request}
use file_system_server.EventLoop.{event_write}
use file_system_server.Os.{
  Socket, FileSystem, write, wrote, would_block, write_failed, write_interrupted,
}
use file_system_server.Server.State.{
  ConnState, recv_header, recv_put_size, recv_put_data, send_ok, send_error, send_get_size,
  send_get_data, send_list_data, done, Client, Machine, max_header_len, modify_event_loop,
  close_and_cleanup,
}
use file_system_server.Server.Listing.{build_list_buffer}

-- The `status` and `msg` of a response.
pub data Status : Type 0 where
  ok : Status
  error : List ℕ → Status

abbrev pub status_text : Status → List ℕ
status_text ok = codes "OK\n"
status_text (error msg) = codes "ERROR\n" ++ (msg ++ newline ∷ [])

abbrev pub status_state : Status → ConnState
status_state ok = send_ok
status_state (error msg) = send_error

-- What `snprintf` leaves in the buffer, and the length that is kept.
abbrev pub prepare_client : Status → Client → Client
prepare_client status c =
    let text = status_text status in
    record c {
      simple_response_sent = 0;
      simple_response_buf = take (max_header_len - 1) text;
      simple_response_len =
          if leb max_header_len (length text) then max_header_len - 1 else length text;
      state = status_state status;
    }

abbrev pub prepare_response : {Disk : Type 0} → Status → Machine Disk → Machine Disk
prepare_response status m = record m { client = prepare_client status m.client }

-- The bytes that `write` is given.
abbrev pub response_left : Client → List ℕ
response_left c =
    take (c.simple_response_len - c.simple_response_sent)
      (drop c.simple_response_sent c.simple_response_buf)

abbrev pub response_advanced : {Disk : Type 0} → ℕ → Socket → Machine Disk → Machine Disk
response_advanced n s m = record m {
  client = record m.client { simple_response_sent = m.client.simple_response_sent + n };
  socket = s;
}

abbrev pub set_state : {Disk : Type 0} → ConnState → Machine Disk → Machine Disk
set_state st m = record m { client = record m.client { state = st } }

module _ (fs : FileSystem) where
  open fs use {Disk}

  -- `client->state = STATE_DONE; close_and_cleanup(epfd, client)`.
  unfoldable pub finish : Machine Disk → Machine Disk
  finish m = close_and_cleanup fs (set_state done m)

  -- The `OK` line is out: what comes next depends on the request.
  unfoldable pub ok_sent : (Machine Disk → Machine Disk) → Verb → Machine Disk → Machine Disk
  ok_sent start_list list m = start_list m
  ok_sent start_list get m = modify_event_loop event_write (record m {
    client = record m.client {
      simple_response_len = 0;
      simple_response_sent = 0;
      state = send_get_size;
    };
  })
  ok_sent start_list put m = finish m
  ok_sent start_list delete m = finish m
  ok_sent start_list v_unknown m = finish m

  unfoldable pub response_sent :
      (Machine Disk → Machine Disk) → ConnState → Machine Disk → Machine Disk
  unfolding ok_sent
  response_sent start_list send_ok m = ok_sent start_list m.client.request_verb m
  response_sent start_list send_error m = finish m
  response_sent start_list _ m = m

  -- `execute_simple_response_write`. `start_send_list`, which it calls and which calls it in turn, is an
  -- argument.
  unfoldable pub execute_write : (Machine Disk → Machine Disk) → Machine Disk → Machine Disk
  unfolding response_sent
  execute_write start_list m = elim (write (response_left m.client) m.socket) [
    | would_block s ↦ record m { socket = s }
    | write_failed s ↦ close_and_cleanup fs (record m { socket = s })
    | write_interrupted s ↦ close_and_cleanup fs (record m { socket = s })
    | wrote n s ↦
        if m.client.simple_response_sent + n == m.client.simple_response_len
        then response_sent start_list m.client.state (response_advanced n s m)
        else modify_event_loop event_write (response_advanced n s m)
  ]

  -- The state that `start_send_list` leaves when it has the buffer.
  abbrev pub list_ready : List ℕ → ℕ → Machine Disk → Machine Disk
  list_ready buffer len m = modify_event_loop event_write (record m {
    client = record m.client {
      list_buf = buffer;
      list_len = len;
      list_sent = 0;
      state = send_list_data;
    };
  })

  -- Its own response is an error, whose last byte starts no list.
  unfoldable pub start_send_list : Machine Disk → Machine Disk
  unfolding execute_write
  start_send_list m = elim (build_list_buffer m.memory m.server_files) [
    | none ↦ execute_write (λ m'. m') (prepare_response (error err_bad_request) m)
    | some (buffer, len) ↦ list_ready buffer len m
  ]

  unfoldable pub execute_simple_response_write : Machine Disk → Machine Disk
  execute_simple_response_write m = execute_write start_send_list m

  unfoldable pub prepare_and_send_response : Status → Machine Disk → Machine Disk
  prepare_and_send_response status m = execute_simple_response_write (prepare_response status m)
