-- ===== src/Server/Events.antt =====
-- server.c, `handle_write_event` and the body of the loop of `main`: one event of one connection.
use file_system_server.Base.{ℕ, Bool, true, false, Option, none, some, if◌then◌else◌}
use file_system_server.EventLoop.{event_read, event_write, event_error, has}
use file_system_server.Os.{FileSystem}
use file_system_server.Server.State.{
  ConnState, recv_header, send_ok, send_error, send_get_size, send_get_data, send_list_data,
  Machine, close_and_cleanup,
}
use file_system_server.Server.Response.{execute_simple_response_write}
use file_system_server.Server.Get.{
  send_get_size_handler, send_get_data_handler, send_list_data_handler,
}
use file_system_server.Server.Header.{handle_read_event}

abbrev pub is_recv_header : ConnState → Bool
is_recv_header recv_header = true
is_recv_header _ = false

module _ (fs : FileSystem) where
  open fs use {Disk}

  -- `handle_write_event`, by the state.
  unfoldable pub write_event : ConnState → Machine Disk → Machine Disk
  write_event send_ok m = execute_simple_response_write fs m
  write_event send_error m = execute_simple_response_write fs m
  write_event send_list_data m = send_list_data_handler fs m
  write_event send_get_size m = send_get_size_handler fs m
  write_event send_get_data m = send_get_data_handler fs m
  write_event _ m = m

  unfoldable pub handle_write_event : Machine Disk → Machine Disk
  unfolding write_event
  handle_write_event m = write_event m.client.state m

  -- The second `if`, which reads `client->state`: `none` where the client is freed by then.
  unfoldable pub write_part : ℕ → Machine Disk → Option (Machine Disk)
  write_part mask m =
      if has mask event_write
      then (if m.freed
          then none
          else if is_recv_header m.client.state
          then some m
          else some (handle_write_event m))
      else some m

  unfoldable pub dispatch_event : ℕ → Machine Disk → Option (Machine Disk)
  unfolding write_part
  dispatch_event mask m =
      if has mask event_error
      then some (close_and_cleanup fs m)
      else write_part mask (if has mask event_read then handle_read_event fs m else m)
