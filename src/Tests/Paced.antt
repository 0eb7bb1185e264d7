-- ===== src/Tests/Paced.antt =====
-- The four requests again, on sockets that take a byte at a time and with bytes that come in pieces.
use file_system_server.Base.{
  take, ℕ, zero, suc, ◌≡◌, refl, sym, ◌∙◌, true, List, [], ◌∷◌, ◌++◌, some, arith, append-nil,
  codes, to_bytes, replicate,
}
use file_system_server.EventLoop.{event_read, event_write}
use file_system_server.Os.{Recv, Send, bytes, interrupted, accepts, interrupts}
use file_system_server.Format.{err_bad_request}
use file_system_server.Server.{Machine, client_create, recv_header, send_get_data}
use file_system_server.Server.Events.{handle_write_event}
use file_system_server.Server.Response.{error, status_text, prepare_and_send_response}
use file_system_server.Server.Answer.{IsAnswering, Answers}
use file_system_server.Server.Answer.Events.{handle_write_event-Answers}
use file_system_server.Server.Answer.Rounds.{IsSteady, write_events, Stands, write_events-Stands}
use file_system_server.Server.Answer.First.{response-IsDelivered}
use file_system_server.Client.Terminal.{terminal}
use file_system_server.Client.{Session}
use file_system_server.Client.Answer.{read_answer}
use file_system_server.Client.Handlers.{send_file, receive_file, receive_list}
use file_system_server.Sessions.Sending.{send_file-sent}
use file_system_server.Sessions.Paced.{answered, get_file_paced-same, list_names_paced-printed}
use file_system_server.Sessions.Arrivals.{arrived_bytes, read_events}
use file_system_server.Server.Put.Stored.{IsAccepted}
use file_system_server.Sessions.Pieces.Upload.{put_file_pieces-IsStored}
use file_system_server.Sessions.PacedPutGet.{put_get_paced-same}
use file_system_server.Tests.{
  one_file, one_file-Appends, one_file-Readable, connection, name_b, name_b-Stores,
}
use file_system_server.Tests.Talk.{one_local_file, one_local_file-Grows}
use file_system_server.Tests.Sessions.{
  one_file-IsFile, session, one_piece, stream-one_piece, one_name, one_name-Stores, putting, put_a,
}

-- Events at each of which the socket takes one byte.
abbrev drops : ℕ → List (List Send)
drops n = replicate n (accepts 1 ∷ [])

drops-IsSteady : (n : ℕ) → IsSteady (drops n)
drops-IsSteady zero = tt
drops-IsSteady (suc n) = ((omega arith, tt), omega arith, drops-IsSteady n)

abbrev slow : List Recv → List ℕ → Machine (List ℕ)
slow rs d = record (connection recv_header event_read rs (accepts 1 ∷ []) d) {
  client = client_create 5;
}

-- `GET a`, of a file of two bytes: thirteen bytes are sent one by one.
abbrev slow_get : Machine (List ℕ)
slow_get = slow (bytes 71 (codes "ET") ∷ bytes 32 (codes "a\n") ∷ []) (8 ∷ 9 ∷ [])

get_file_paced-same_example :
    ((answered one_file (drops 13) slow_get).freed ≡ true)
    × ((read_answer
          (receive_file one_local_file (98 ∷ []))
          (session (one_piece (answered one_file (drops 13) slow_get).socket.sent) [])).disk
        ≡ 8 ∷ 9 ∷ [])
get_file_paced-same_example =
    get_file_paced-same one_file 9 one_file-Readable one_local_file 4 one_local_file-Grows 5
      (97 ∷ []) (codes "GET a\n") (98 ∷ []) [] slow_get
      (session (one_piece (answered one_file (drops 13) slow_get).socket.sent) []) (drops 13)
      (8 ∷ 9 ∷ []) [] (refl, tt) (refl, tt) (omega arith) refl refl refl refl refl (omega arith, tt)
      (omega arith) (drops-IsSteady 13) (omega arith) (omega arith) refl refl refl refl
      (stream-one_piece (answered one_file (drops 13) slow_get).socket.sent
        ∙ sym (append-nil (answered one_file (drops 13) slow_get).socket.sent))

abbrev slow_list : Machine (List ℕ)
slow_list = record (slow (bytes 76 (codes "I") ∷ interrupted ∷ bytes 83 (codes "T\n") ∷ []) []) {
  server_files = one_name;
}

list_names_paced-printed_example :
    ((answered one_file (drops 12) slow_list).freed ≡ true)
    × (terminal
          (read_answer
            (receive_list one_local_file)
            (session (one_piece (answered one_file (drops 12) slow_list).socket.sent) [])).output
        ≡ terminal [] ++ 97 ∷ [])
list_names_paced-printed_example =
    list_names_paced-printed one_local_file one_file 5 ((97 ∷ []) ∷ []) slow_list
      (session (one_piece (answered one_file (drops 12) slow_list).socket.sent) []) (drops 12) refl
      refl refl refl one_name-Stores.holds refl (omega arith, tt) (omega arith) (drops-IsSteady 12)
      (omega arith) (omega arith) refl
      (stream-one_piece (answered one_file (drops 12) slow_list).socket.sent)

-- `PUT a` and two bytes, cut within the line, the size and the file.
abbrev in_pieces : List (List Recv)
in_pieces =
    (bytes 80 (codes "UT") ∷ interrupted ∷ [])
    ∷ (bytes 32 (codes "a\n") ∷ bytes 2 (0 ∷ 0 ∷ []) ∷ [])
    ∷ []
    ∷ (bytes 0 (0 ∷ 0 ∷ 0 ∷ 0 ∷ 8 ∷ []) ∷ [])
    ∷ (bytes 9 [] ∷ [])
    ∷ []

abbrev open_to_put : Machine (List ℕ)
open_to_put = record (slow [] []) {
  socket = record { incoming = []; outcomes = accepts 9 ∷ []; sent = [] };
  server_files = name_b;
}

pieces_sent :
    arrived_bytes in_pieces ≡ (send_file one_local_file put_a 2 (8 ∷ 9 ∷ []) putting).socket.sent
unfolding to_bytes
pieces_sent = sym (
    send_file-sent one_local_file 1 put_a (8 ∷ 9 ∷ []) 2 putting
      (omega arith, (omega arith, (omega arith, tt))) (omega arith) (omega arith) (omega arith))

put_file_pieces-IsStored_example :
    (e : List ℕ) × IsAccepted one_file
      (97 ∷ [])
      ((98 ∷ []) ∷ [])
      open_to_put
      e
      (read_events one_file (in_pieces ++ [] ∷ []) open_to_put)
    × (e ≡ 8 ∷ 9 ∷ [])
put_file_pieces-IsStored_example =
    put_file_pieces-IsStored one_local_file one_file 9 one_file-Appends 1 5 9 in_pieces (97 ∷ [])
      (8 ∷ 9 ∷ []) put_a ((98 ∷ []) ∷ []) putting open_to_put [] [] refl
      (omega arith, (omega arith, (omega arith, tt))) (omega arith) (omega arith) (refl, tt)
      (refl, tt) (omega arith) refl refl refl refl refl (omega arith) refl refl
      (refl, (refl, (refl, (refl, (refl, tt))))) pieces_sent refl name_b-Stores

response-IsDelivered_example :
    let out =
      write_events one_file
        (drops 40)
        (prepare_and_send_response one_file (error err_bad_request) (slow [] [])) in
    (out.freed ≡ true) × (out.socket.sent ≡ [] ++ (status_text (error err_bad_request) ++ []))
response-IsDelivered_example =
    response-IsDelivered one_file (λ d. d) (error err_bad_request) (drops 40) (slow [] []) refl
      (omega arith) tt tt (omega arith, tt) (omega arith) (drops-IsSteady 40) (omega arith)

-- A download with the second byte of three due.
abbrev half_sent : Machine (List ℕ)
half_sent = record (connection send_get_data event_write [] (accepts 1 ∷ []) (7 ∷ 8 ∷ 9 ∷ 6 ∷ [])) {
  interest = some event_write;
}

half_sent-IsAnswering : IsAnswering one_file (λ d. d) half_sent
half_sent-IsAnswering = record {
  live = refl;
  watched = refl;
  formed = (9, refl, λ n off d. refl, refl, omega arith);
}

handle_write_event-Answers_example :
    Answers one_file (λ d. d) half_sent (handle_write_event one_file half_sent)
handle_write_event-Answers_example =
    handle_write_event-Answers one_file (λ d. d) half_sent half_sent-IsAnswering

write_events-Stands_example :
    Stands one_file
      (λ d. d)
      half_sent
      (write_events one_file ((accepts 1 ∷ []) ∷ (interrupts ∷ []) ∷ []) half_sent)
write_events-Stands_example =
    write_events-Stands one_file (λ d. d) ((accepts 1 ∷ []) ∷ (interrupts ∷ []) ∷ []) half_sent
      half_sent-IsAnswering

-- `GET a` on another connection, behind the upload in pieces.
abbrev slow_again : Machine (List ℕ)
slow_again =
    slow (bytes 71 (codes "ET a\n") ∷ [])
      (read_events one_file (in_pieces ++ [] ∷ []) open_to_put).disk

abbrev getting_slowly : Session (List ℕ)
getting_slowly = session (one_piece (answered one_file (drops 13) slow_again).socket.sent) []

put_get_paced-same_example :
    (read_answer (receive_file one_local_file (98 ∷ [])) getting_slowly).disk ≡ 8 ∷ 9 ∷ []
put_get_paced-same_example =
    put_get_paced-same one_local_file 4 one_local_file-Grows one_file 1 9 5 5 (97 ∷ []) (8 ∷ 9 ∷ [])
      put_a (codes "GET a\n") (98 ∷ []) [] putting getting_slowly open_to_put slow_again []
      in_pieces [] (drops 13)
      (one_file-IsFile (take 1023 (open_to_put.temp_dir ++ b'/' ∷ take 255 (97 ∷ []))))
      (omega arith) (refl, tt) (refl, tt) (omega arith) refl refl
      (omega arith, (omega arith, (omega arith, tt))) (omega arith) refl refl refl refl
      (omega arith) (refl, (refl, (refl, (refl, (refl, tt))))) pieces_sent refl refl refl refl refl
      refl refl (omega arith, tt) (omega arith) (drops-IsSteady 13) (omega arith) refl refl
      (stream-one_piece (answered one_file (drops 13) slow_again).socket.sent
        ∙ sym (append-nil (answered one_file (drops 13) slow_again).socket.sent))
