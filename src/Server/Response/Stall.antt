-- ===== src/Server/Response/Stall.antt =====
-- A response whose first write finds the socket's buffer full.
use file_system_server.Base.{◌≡◌, refl, false, [], some}
use file_system_server.EventLoop.{event_read}
use file_system_server.Os.{Socket, FileSystem}
use file_system_server.Server.State.{Machine}
use file_system_server.Server.Header.{read_event, handle_read_event}
use file_system_server.Server.Events.{write_part, dispatch_event}
use file_system_server.Server.Response.{
  Status, ok, error, prepare_response, prepare_and_send_response,
}
use file_system_server.Server.Response.Delivery.{prepare_and_send_response_blocked}

module _ (fs : FileSystem) where
  open fs use {Disk}

  -- The connection, with whatever becomes of its socket.
  abbrev pub at_socket : Socket → Machine Disk → Machine Disk
  at_socket s m = record m { socket = s }

  prepared_ignores_reads :
      (status : Status) (m : Machine Disk)
      → m.freed ≡ false
      → dispatch_event fs event_read (prepare_response status m) ≡ some (prepare_response status m)
  unfolding dispatch_event write_part handle_read_event read_event
  prepared_ignores_reads ok m f = refl
  prepared_ignores_reads (error msg) m f = refl

  -- A connection that is watched for reading, and whose first write of a response finds the socket
  -- full, stays watched for reading alone; and however much room the socket gets, an event of
  -- that kind does nothing, so the response is never sent.
  pub response_stalls :
      (status : Status) (m : Machine Disk) (s : Socket)
      → m.freed ≡ false
      → m.interest ≡ some event_read
      → m.socket.outcomes ≡ []
      → let m' = prepare_and_send_response fs status m in
        (m'.freed ≡ false)
        × (m'.interest ≡ some event_read)
        × (m'.socket.sent ≡ m.socket.sent)
        × (dispatch_event fs event_read (at_socket s m') ≡ some (at_socket s m'))
  response_stalls status m s f i o =
      rw (prepare_and_send_response_blocked fs status m o)
        (f, i, refl, prepared_ignores_reads status (at_socket s m) f)
