-- ===== src/Tests/Talk.antt =====
-- Runs of the client, and of the server with what the client sends.
use file_system_server.Server.Loop.{
  Server, Accept, interrupted_accept, no_connection, accept_connections,
}
use file_system_server.Server.Loop.Accepting.{IsFresh, accept_connections-IsFresh}
use file_system_server.Client.Args.{Args, check_args, IsComplete, check_args-IsComplete}
use file_system_server.Base.{
  none, inl, inr, str_eq, ℕ, ◌≡◌, refl, true, false, List, [], ◌∷◌, ◌++◌, some, arith, length,
}
use file_system_server.Common.{delete, get}
use file_system_server.EventLoop.{event_read}
use file_system_server.EventLoop.Epoll.{EpollEvents}
use file_system_server.Os.{Recv, bytes, interrupted, stream}
use file_system_server.Server.{Machine, recv_header}
use file_system_server.Server.Header.{start_request, handle_read_event}
use file_system_server.Server.Header.Line.{headed}
use file_system_server.Client.{LocalFiles}
use file_system_server.Client.Requests.{request_understood}
use file_system_server.Client.Download.{Grows}
use file_system_server.Tests.{one_file, connection}

-- `GET a` and its newline in two pieces, with a byte behind it.
abbrev get_a : List Recv
get_a = bytes 71 (69 ∷ 84 ∷ []) ∷ interrupted ∷ bytes 32 (97 ∷ 10 ∷ 5 ∷ []) ∷ []

abbrev new_connection : Machine (List ℕ)
new_connection = connection recv_header event_read get_a [] []

request_understood_example :
    (rest : List Recv) × (handle_read_event one_file new_connection
      ≡ start_request one_file get
          (some (97 ∷ []))
          (headed one_file new_connection (71 ∷ 69 ∷ 84 ∷ 32 ∷ 97 ∷ 10 ∷ []) rest))
    × (stream rest ≡ 5 ∷ [])
request_understood_example =
    request_understood one_file new_connection get (97 ∷ []) (5 ∷ [])
      (71 ∷ 69 ∷ 84 ∷ 32 ∷ 97 ∷ 10 ∷ []) tt refl refl (refl, tt) (refl, tt) (omega arith) refl refl

-- Local files of which there is one.
abbrev pub one_local_file : LocalFiles
one_local_file = record {
  Disk = List ℕ;
  create = λ path d. (some 4, []);
  write_file = λ fd bs d. d ++ bs;
  close_file = λ fd d. d;
  fopen_contents = λ path d. some d;
  stat_size = λ path d. some (length d);
}

abbrev pub one_local_file-Grows : Grows one_local_file 4
one_local_file-Grows = record { content = λ d. d; written = λ bs d. refl; kept = λ d. refl }

abbrev readable : EpollEvents
readable = record {
  epollet = false;
  epollin = true;
  epollout = false;
  epollerr = false;
  epollhup = false;
}

-- Two connections that are accepted by a server with an empty table.
abbrev listening : Server (List ℕ)
listening = record {
  disk = [];
  server_files = record { cells = []; size = 0; capacity = 0 };
  fd_to_client = record { entries = []; capacity = 8 };
  temp_dir = [];
  sockets = λ fd. record { incoming = []; outcomes = []; sent = [] };
  interests = λ fd. none;
  nonblocking = λ fd. false;
  flags_set = true;
  memory = true;
  listen_fd = 3;
  backlog = Accept.connection 7 ∷ interrupted_accept ∷ Accept.connection 8 ∷ no_connection ∷ [];
}

accept_connections-IsFresh_example : IsFresh 8 (accept_connections listening)
accept_connections-IsFresh_example = accept_connections-IsFresh 8 listening refl (inr (inl refl))

-- `DELETE` with a name, for a server at `a:b`.
abbrev delete_args : Args
delete_args = record {
  host = 97 ∷ [];
  port = 98 ∷ [];
  method = 68 ∷ 69 ∷ 76 ∷ 69 ∷ 84 ∷ 69 ∷ [];
  remote = some (99 ∷ []);
  local = none;
}

check_args-IsComplete_example : IsComplete delete delete_args
unfolding check_args str_eq
check_args-IsComplete_example = check_args-IsComplete delete_args delete refl
