-- ===== src/Tests/Serve.antt =====
-- Runs of the handlers of the server.
use file_system_server.Base.{
  ℕ, ◌+◌, ◌≡◌, ◌≢◌, refl, true, false, List, [], ◌∷◌, ◌++◌, some, arith, length, from_bytes,
}
use file_system_server.Format.{err_bad_file_size}
use file_system_server.EventLoop.{event_read, event_write}
use file_system_server.Os.{bytes, interrupted, closed, Send, accepts, pending, ending, stream}
use file_system_server.Server.{
  Machine, recv_header, recv_put_data, send_ok, send_get_data, close_if_open,
}
use file_system_server.Server.Response.{
  ok, error, status_text, response_left, execute_simple_response_write, prepare_response,
  prepare_and_send_response,
}
use file_system_server.Server.Response.Delivery.{
  error_response_whole, execute_simple_response_write_part,
}
use file_system_server.Server.Response.Stall.{at_socket, response_stalls}
use file_system_server.Server.Put.{recv_put_data_handler}
use file_system_server.Server.Put.Stored.{IsAccepted}
use file_system_server.Server.Put.Outcome.{
  recv_put_data_exact, recv_put_data_waits, recv_put_data_cut,
}
use file_system_server.Server.Put.Excess.{Excess}
use file_system_server.Server.Get.{send_get_data_handler}
use file_system_server.Server.Get.Download.{Downloads, send_get_data-Downloads}
use file_system_server.Server.Get.Whole.{IsSent, send_get_data-IsSent}
use file_system_server.Server.Events.{dispatch_event}
use file_system_server.Tests.{
  one_file, one_file-Appends, one_file-Readable, connection, name_b, name_b-Stores,
}

-- Three bytes of an upload of four are still to come, in two parts.
abbrev upload : Machine (List ℕ)
upload =
    record (connection recv_put_data event_read (bytes 2 [] ∷ interrupted ∷ bytes 3 (4 ∷ []) ∷ [])
      (accepts 3 ∷ []) (1 ∷ [])) { server_files = name_b }

recv_put_data_exact_example :
    (d : List ℕ) × IsAccepted one_file
      (97 ∷ [])
      ((98 ∷ []) ∷ [])
      upload
      d
      (recv_put_data_handler one_file upload)
    × (d ≡ upload.disk ++ stream upload.socket.incoming)
unfolding from_bytes
recv_put_data_exact_example =
    recv_put_data_exact one_file 9 one_file-Appends upload 3 [] ((98 ∷ []) ∷ []) refl refl refl refl
      refl (omega arith) refl name_b-Stores

-- Two bytes too many, and a signal at the wrong time.
abbrev long_upload : Machine (List ℕ)
long_upload =
    record (connection recv_put_data event_read
      (bytes 2 (3 ∷ 4 ∷ []) ∷ interrupted ∷ bytes 5 (6 ∷ []) ∷ []) (accepts 100 ∷ []) (1 ∷ [])) {
        server_files = name_b;
      }

-- Only two of them are there.
abbrev part_upload : Machine (List ℕ)
part_upload = connection recv_put_data event_read (bytes 2 (3 ∷ []) ∷ []) [] (1 ∷ [])

recv_put_data_waits_test :
    let m' = recv_put_data_handler one_file part_upload in
    (m'.disk ≡ part_upload.disk ++ stream part_upload.socket.incoming)
    × (m'.client.bytes_transferred ≡ 1 + length (stream part_upload.socket.incoming))
    × (m'.client.state ≡ recv_put_data)
    × (m'.client.file_fd ≡ some 9)
    × (m'.socket.incoming ≡ [])
    × (m'.freed ≡ false)
    × (m'.interest ≡ some event_read)
    × (m'.server_files ≡ part_upload.server_files)
unfolding from_bytes
recv_put_data_waits_test =
    recv_put_data_waits one_file 9 one_file-Appends part_upload refl refl (omega arith) refl

-- The peer closes behind them.
abbrev cut_upload : Machine (List ℕ)
cut_upload =
    connection recv_put_data event_read (bytes 2 (3 ∷ []) ∷ closed ∷ []) (accepts 100 ∷ []) (1 ∷ [])

shut_not_pending : ending cut_upload.socket.incoming ≢ pending
shut_not_pending e = ground arith

recv_put_data_cut_example :
    let m' = recv_put_data_handler one_file cut_upload in
    (d : List ℕ) × (m'.disk ≡ d)
    × (d ≡ cut_upload.disk ++ stream cut_upload.socket.incoming)
    × (m'.freed ≡ true)
    × (m'.socket.sent ≡ [] ++ status_text (error err_bad_file_size))
    × (m'.server_files ≡ cut_upload.server_files)
unfolding from_bytes
recv_put_data_cut_example =
    recv_put_data_cut one_file 9 one_file-Appends cut_upload 100 [] refl refl (omega arith)
      shut_not_pending refl (omega arith)

-- A download of four bytes, the first of them sent, to a socket that takes two.
abbrev download : Machine (List ℕ)
download = connection send_get_data event_write [] (accepts 2 ∷ []) (1 ∷ 2 ∷ 3 ∷ 4 ∷ [])

send_get_data-Downloads_test :
    Downloads one_file 9 one_file-Readable download download.socket 1
      (send_get_data_handler one_file download)
send_get_data-Downloads_test =
    send_get_data-Downloads one_file 9 one_file-Readable download refl refl (omega arith)

-- A connection to which a response is sent.
abbrev answering : List Send → Machine (List ℕ)
answering outs = connection recv_header event_read [] outs []

response_stalls_example :
    let m = answering [] in
    let m' = prepare_and_send_response one_file ok m in
    let s = record m.socket { outcomes = accepts 100 ∷ [] } in
    (m'.freed ≡ false)
    × (m'.interest ≡ some event_read)
    × (m'.socket.sent ≡ [])
    × (dispatch_event one_file event_read (at_socket one_file s m')
        ≡ some (at_socket one_file s m'))
response_stalls_example =
    response_stalls one_file ok (answering [])
      (record { incoming = []; outcomes = accepts 100 ∷ []; sent = [] }) refl refl refl

error_response_whole_example :
    let m = answering (accepts 100 ∷ []) in
    let m' = prepare_and_send_response one_file (error err_bad_file_size) m in
    (m'.freed ≡ true)
    × (m'.socket.sent ≡ [] ++ status_text (error err_bad_file_size))
    × (m'.disk ≡ close_if_open one_file (some 9) m.disk)
    × (m'.server_files ≡ m.server_files)
error_response_whole_example =
    error_response_whole one_file err_bad_file_size (answering (accepts 100 ∷ [])) 100 []
      (omega arith) refl (omega arith)

-- The three bytes of `OK`, to a socket that takes one.
abbrev in_response : Machine (List ℕ)
in_response = prepare_response ok (answering (accepts 1 ∷ []))

execute_simple_response_write_part_test :
    let m' = execute_simple_response_write one_file in_response in
    (m'.socket.sent ++ response_left m'.client ≡ [] ++ response_left in_response.client)
    × (m'.interest ≡ some event_write)
    × (m'.client.state ≡ send_ok)
    × (m'.freed ≡ false)
execute_simple_response_write_part_test =
    execute_simple_response_write_part one_file in_response 1 [] refl (omega arith) (omega arith)

-- One write is enough for the three bytes that are left.
abbrev fast_download : Machine (List ℕ)
fast_download = connection send_get_data event_write [] (accepts 5000 ∷ []) (1 ∷ 2 ∷ 3 ∷ 4 ∷ [])

send_get_data-IsSent_test :
    IsSent one_file 9 one_file-Readable fast_download fast_download.socket 1
      (send_get_data_handler one_file fast_download)
send_get_data-IsSent_test =
    send_get_data-IsSent one_file 9 one_file-Readable 1 fast_download refl (omega arith, tt) refl
      (omega arith) (omega arith)
