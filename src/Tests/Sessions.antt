-- ===== src/Tests/Sessions.antt =====
-- The four requests from end to end, on a disk with one file.
use file_system_server.Base.{
  take, ℕ, ◌↔◌, ◌≡◌, refl, sym, ap, ◌∙◌, true, List, [], ◌∷◌, ◌++◌, none, some, arith, append-nil,
  codes, to_bytes, replicate, str_eq,
}
use file_system_server.EventLoop.{event_read}
use file_system_server.Os.{Recv, Send, bytes, interrupted, accepts, interrupts, stream}
use file_system_server.Collections.Vector.{Vector, vector_create}
use file_system_server.Server.{Machine, client_create, recv_header}
use file_system_server.Server.Header.{handle_read_event}
use file_system_server.Server.Events.{handle_write_event}
use file_system_server.Server.Names.Laws.{Stores}
use file_system_server.Client.{Session}
use file_system_server.Client.Terminal.{terminal}
use file_system_server.Client.Answer.{read_answer}
use file_system_server.Client.Handlers.{send_file, put_answer, receive_file, receive_list}
use file_system_server.Sessions.Sending.{send_file-sent}
use file_system_server.Sessions.Put.{put_file-IsStored}
use file_system_server.Server.Put.Stored.{IsStored}
use file_system_server.Sessions.Get.{three_events, get_file-same}
use file_system_server.Sessions.Listing.{list_names-printed}
use file_system_server.Sessions.PutGet.{IsFile, put_get-same}
use file_system_server.Sessions.Delete.{told, delete_file-told}
use file_system_server.Server.Put.{recv_put_size_handler, recv_put_data_handler}
use file_system_server.Server.Put.Rounds.{SizeRun, DataRun, put_loops-end}
use file_system_server.Tests.{one_file, one_file-Appends, one_file-Readable, connection}
use file_system_server.Tests.Talk.{one_local_file, one_local_file-Grows}

abbrev pub session : List Recv → List Send → Session (List ℕ)
session rs outs = record {
  socket = record { incoming = rs; outcomes = outs; sent = [] };
  write_side_open = true;
  disk = [];
  output = [];
  memory = true;
}

-- A new connection, on a disk with the bytes `d`, whose socket takes much with each write.
abbrev fresh : List Recv → List ℕ → Machine (List ℕ)
fresh rs d =
    record (connection recv_header event_read rs (accepts 9 ∷ accepts 9 ∷ accepts 5000 ∷ []) d) {
      client = client_create 5;
      server_files = vector_create;
    }

-- `PUT a`, and two bytes.
abbrev pub putting : Session (List ℕ)
putting = session [] (accepts 5000 ∷ interrupts ∷ accepts 5000 ∷ accepts 5000 ∷ [])

abbrev pub put_a : List ℕ
put_a = codes "PUT a\n"

abbrev asked_to_put : Machine (List ℕ)
asked_to_put =
    fresh
      (bytes 80 (codes "UT a\n")
        ∷ interrupted
        ∷ bytes 2 (0 ∷ 0 ∷ 0 ∷ [])
        ∷ bytes 0 (0 ∷ 0 ∷ 0 ∷ 8 ∷ 9 ∷ [])
        ∷ [])
      []

put_sent :
    stream asked_to_put.socket.incoming
    ≡ (send_file one_local_file put_a 2 (8 ∷ 9 ∷ []) putting).socket.sent
unfolding to_bytes
put_sent = sym (
    send_file-sent one_local_file 1 put_a (8 ∷ 9 ∷ []) 2 putting
      (omega arith, (omega arith, (omega arith, tt))) (omega arith) (omega arith) (omega arith))

put_file-IsStored_test :
    (d' : List ℕ) × IsStored one_file
      (97 ∷ [])
      asked_to_put
      d'
      (handle_read_event one_file (handle_read_event one_file asked_to_put))
    × (d' ≡ 8 ∷ 9 ∷ [])
put_file-IsStored_test =
    put_file-IsStored one_local_file one_file 9 one_file-Appends 1 5 9 (97 ∷ []) (8 ∷ 9 ∷ []) put_a
      putting asked_to_put [] (accepts 9 ∷ accepts 5000 ∷ []) refl
      (omega arith, (omega arith, (omega arith, tt))) (omega arith) (omega arith) (refl, tt)
      (refl, tt) (omega arith) refl refl refl (omega arith) refl refl put_sent

-- `GET a`, of a file of two bytes.
abbrev asked_to_get : Machine (List ℕ)
asked_to_get = fresh (bytes 71 (codes "ET") ∷ bytes 32 (codes "a\n") ∷ []) (8 ∷ 9 ∷ [])

-- All that was sent, in one piece.
abbrev pub one_piece : List ℕ → List Recv
one_piece [] = []
one_piece (b ∷ bs) = bytes b bs ∷ []

pub stream-one_piece : (bs : List ℕ) → stream (one_piece bs) ≡ bs
stream-one_piece [] = refl
stream-one_piece (b ∷ bs) = ap (λ z. b ∷ z) (append-nil bs)

abbrev getting : Session (List ℕ)
getting = session (one_piece (three_events one_file asked_to_get).socket.sent) []

get_file-same_test :
    ((three_events one_file asked_to_get).freed ≡ true)
    × ((read_answer (receive_file one_local_file (98 ∷ [])) getting).disk ≡ 8 ∷ 9 ∷ [])
get_file-same_test =
    get_file-same one_file 9 one_file-Readable one_local_file 4 one_local_file-Grows 5 9 9 1
      (97 ∷ []) (codes "GET a\n") (98 ∷ []) [] asked_to_get getting (accepts 5000 ∷ []) (8 ∷ 9 ∷ [])
      [] (refl, tt) (refl, tt) (omega arith) refl refl refl refl refl (omega arith) (omega arith)
      (omega arith, tt) (omega arith) (omega arith) refl refl refl refl
      (stream-one_piece (three_events one_file asked_to_get).socket.sent
        ∙ sym (append-nil (three_events one_file asked_to_get).socket.sent))

-- A list with the name `a`.
abbrev pub one_name : Vector (List ℕ)
one_name = record { cells = some (97 ∷ []) ∷ replicate 7 none; size = 1; capacity = 8 }

pub one_name-Stores : Stores one_name ((97 ∷ []) ∷ [])
one_name-Stores = record {
  holds = record { live = refl; space = refl; fits = omega arith; positive = omega arith };
  once = (tt, tt);
}

abbrev asked_to_list : Machine (List ℕ)
asked_to_list =
    record (fresh (bytes 76 (codes "I") ∷ interrupted ∷ bytes 83 (codes "T\n") ∷ []) []) {
      server_files = one_name;
    }

abbrev listed : Machine (List ℕ)
listed = handle_write_event one_file (handle_read_event one_file asked_to_list)

list_names-printed_test :
    (listed.freed ≡ true)
    × (terminal
          (read_answer
            (receive_list one_local_file)
            (session (one_piece listed.socket.sent) [])).output
        ≡ terminal [] ++ 97 ∷ [])
list_names-printed_test =
    list_names-printed one_local_file one_file 5 9 9 ((97 ∷ []) ∷ []) asked_to_list
      (session (one_piece listed.socket.sent) []) (accepts 5000 ∷ []) refl refl refl
      one_name-Stores.holds refl refl (omega arith) (omega arith) (omega arith) refl
      (stream-one_piece listed.socket.sent)

abbrev asked_to_delete : Machine (List ℕ)
asked_to_delete = record (fresh (bytes 68 (codes "ELETE a\n") ∷ []) []) {
  server_files = one_name;
  socket = record {
    incoming = bytes 68 (codes "ELETE a\n") ∷ [];
    outcomes = accepts 100 ∷ [];
    sent = [];
  };
}

abbrev deleted : Machine (List ℕ)
deleted = handle_read_event one_file asked_to_delete

delete_file-told_example :
    (deleted.freed ≡ true)
    × Stores deleted.server_files []
    × (terminal
          (read_answer
            (put_answer one_local_file)
            (session (one_piece deleted.socket.sent) [])).output
        ≡ terminal [] ++ told (some 0))
unfolding str_eq
delete_file-told_example =
    delete_file-told one_file one_local_file 5 100 (97 ∷ []) (codes "DELETE a\n") ((97 ∷ []) ∷ [])
      (some 0) asked_to_delete (session (one_piece deleted.socket.sent) []) [] (refl, tt) (refl, tt)
      (omega arith) refl refl refl refl one_name-Stores refl refl refl (omega arith)
      (stream-one_piece deleted.socket.sent)

-- The upload behind its request line.
abbrev before_size : Machine (List ℕ)
before_size = handle_read_event one_file asked_to_put

abbrev uploaded_a : Machine (List ℕ)
uploaded_a = recv_put_size_handler one_file before_size

put_loops-end_example :
    (SizeRun one_file before_size uploaded_a
      ↔ (uploaded_a ≡ recv_put_size_handler one_file before_size))
    × (DataRun one_file before_size uploaded_a
        ↔ (uploaded_a ≡ recv_put_data_handler one_file before_size))
put_loops-end_example = put_loops-end one_file before_size uploaded_a

pub one_file-IsFile : (path : List ℕ) → IsFile one_file path
one_file-IsFile path = record {
  writer = 9;
  appends = one_file-Appends;
  emptied = λ d. ([], refl, refl);
  reader = 9;
  readable = one_file-Readable;
  reopened = λ d. (d, refl, refl);
  sized = λ d. refl;
}

-- `GET a` on another connection, behind the upload.
abbrev asked_again : Machine (List ℕ)
asked_again =
    fresh (bytes 71 (codes "ET a\n") ∷ [])
      (handle_read_event one_file (handle_read_event one_file asked_to_put)).disk

abbrev getting_again : Session (List ℕ)
getting_again = session (one_piece (three_events one_file asked_again).socket.sent) []

put_get-same_test :
    (read_answer (receive_file one_local_file (98 ∷ [])) getting_again).disk ≡ 8 ∷ 9 ∷ []
put_get-same_test =
    put_get-same one_local_file 4 one_local_file-Grows one_file 1 1 9 5 5 9 9 (97 ∷ []) (8 ∷ 9 ∷ [])
      put_a (codes "GET a\n") (98 ∷ []) [] putting getting_again asked_to_put asked_again []
      (accepts 9 ∷ accepts 5000 ∷ []) (accepts 5000 ∷ [])
      (one_file-IsFile (take 1023 (asked_to_put.temp_dir ++ b'/' ∷ take 255 (97 ∷ []))))
      (omega arith) (refl, tt) (refl, tt) (omega arith) refl refl
      (omega arith, (omega arith, (omega arith, tt))) (omega arith) refl refl (omega arith) put_sent
      refl refl refl refl refl refl refl (omega arith) (omega arith) (omega arith, tt) (omega arith)
      refl refl
      (stream-one_piece (three_events one_file asked_again).socket.sent
        ∙ sym (append-nil (three_events one_file asked_again).socket.sent))
