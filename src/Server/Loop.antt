-- ===== src/Server/Loop.antt =====
-- server.c, the table of connections: accepting one, and serving a batch of events.
pub mod Accepting
pub mod Clients
pub mod Safety
pub mod Batches
pub mod Runs
pub mod Signals
use file_system_server.Base.{
  ℕ, Bool, true, false, List, [], ◌∷◌, Option, none, some, ◌==◌, if◌then◌else◌,
}
use file_system_server.EventLoop.{event_read}
use file_system_server.Collections.Vector.{Vector, vector_create}
use file_system_server.Collections.Dictionary.{
  Dictionary, dictionary_create, dictionary_get, dictionary_set,
}
use file_system_server.Os.{Socket, FileSystem}
use file_system_server.Server.State.{Client, Machine, client_create}
use file_system_server.Server.Events.{dispatch_event}

-- What `accept` returns.
pub data Accept : Type 0 where
  connection : ℕ → Accept
  interrupted_accept : Accept
  no_connection : Accept

-- The globals of server.c, with the socket behind each descriptor, the events watched on it, whether it
-- is non-blocking, and what the next calls of `accept` return. `flags_set` says whether `fcntl` succeeds.
pub record Server (Disk : Type 0) : Type 0 where
  pub disk : Disk
  pub server_files : Vector (List ℕ)
  pub fd_to_client : Dictionary Client
  pub temp_dir : List ℕ
  pub sockets : ℕ → Socket
  pub interests : ℕ → Option ℕ
  pub nonblocking : ℕ → Bool
  pub flags_set : Bool
  pub memory : Bool
  pub listen_fd : ℕ
  pub backlog : List Accept

abbrev pub update {ℓ} : {A : Type ℓ} → (ℕ → A) → ℕ → A → ℕ → A
update f k a j = if k == j then a else f j

-- `main` up to its loop, for a directory that has been made.
unfoldable pub server_start : {Disk : Type 0} → List ℕ → ℕ → (ℕ → Socket) → Disk → Server Disk
server_start temp_dir listen_fd sockets disk = record {
  disk = disk;
  server_files = vector_create;
  fd_to_client = dictionary_create;
  temp_dir = temp_dir;
  sockets = sockets;
  interests = update (λ fd. none) listen_fd (some event_read);
  nonblocking = update (λ fd. false) listen_fd true;
  flags_set = true;
  memory = true;
  listen_fd = listen_fd;
  backlog = [];
}

-- `make_socket_nonblocking`, whose result is not looked at.
abbrev pub set_nonblocking : Bool → ℕ → (ℕ → Bool) → ℕ → Bool
set_nonblocking succeeds fd flags = if succeeds then update flags fd true else flags

-- One round of `accept_connections` with a connection.
unfoldable pub accept_one : {Disk : Type 0} → ℕ → Server Disk → Server Disk
accept_one fd s = record s {
  nonblocking = set_nonblocking s.flags_set fd s.nonblocking;
  interests = update s.interests fd (some event_read);
  fd_to_client = dictionary_set s.memory s.fd_to_client fd (client_create fd);
}

-- The loop, on what `accept` returns; with nothing left it would block.
unfoldable pub accept_loop : {Disk : Type 0} → List Accept → Server Disk → Server Disk
accept_loop [] s = record s { backlog = [] }
accept_loop (connection fd ∷ rest) s = accept_loop rest (accept_one fd s)
accept_loop (interrupted_accept ∷ rest) s = accept_loop rest s
accept_loop (no_connection ∷ rest) s = record s { backlog = rest }

unfoldable pub accept_connections : {Disk : Type 0} → Server Disk → Server Disk
unfolding accept_loop
accept_connections s = accept_loop s.backlog s

-- What `event_loop_wait` returns.
pub data Wait : Type 0 where
  ready : List (ℕ × ℕ) → Wait
  interrupted_wait : Wait
  failed_wait : Wait

-- What clients, the kernel and other programs have made of the sockets, of the connections that wait
-- and of the disk by the time a call of `event_loop_wait` returns.
pub record Outside (Disk : Type 0) : Type 0 where
  pub arrivals : ℕ → Socket
  pub callers : List Accept
  pub files : Disk

abbrev pub meanwhile : {Disk : Type 0} → Outside Disk → Server Disk → Server Disk
meanwhile world s = record s {
  sockets = world.arrivals;
  backlog = world.callers;
  disk = world.files;
}

-- The client that the table gives for `fd`, with its surroundings.
abbrev pub focus : {Disk : Type 0} → ℕ → Client → Server Disk → Machine Disk
focus fd c s = record {
  client = c;
  freed = false;
  socket = s.sockets fd;
  interest = s.interests fd;
  disk = s.disk;
  server_files = s.server_files;
  fd_to_client = s.fd_to_client;
  temp_dir = s.temp_dir;
  memory = s.memory;
}

-- The pointer in the table leads to the client as the handler left it, unless it was freed.
abbrev pub table_after : {Disk : Type 0} → ℕ → Machine Disk → Dictionary Client
table_after fd m =
    if m.freed then m.fd_to_client else dictionary_set true m.fd_to_client fd m.client

abbrev pub unfocus : {Disk : Type 0} → ℕ → Machine Disk → Server Disk → Server Disk
unfocus fd m s = record s {
  disk = m.disk;
  server_files = m.server_files;
  fd_to_client = table_after fd m;
  sockets = update s.sockets fd m.socket;
  interests = update s.interests fd m.interest;
}

module _ (fs : FileSystem) where
  open fs use {Disk}

  abbrev pub put_back_client : ℕ → Option (Machine Disk) → Server Disk → Option (Server Disk)
  put_back_client fd none s = none
  put_back_client fd (some m) s = some (unfocus fd m s)

  -- One event of a connection.
  unfoldable pub serve_client : ℕ → ℕ → Server Disk → Option (Server Disk)
  serve_client fd mask s = elim (dictionary_get s.fd_to_client fd) [
    | none ↦ some s
    | some c ↦ put_back_client fd (dispatch_event fs mask (focus fd c s)) s
  ]

  -- One event; `none` is a use of freed memory.
  unfoldable pub serve_event : ℕ → ℕ → Server Disk → Option (Server Disk)
  unfolding serve_client accept_connections
  serve_event fd mask s =
      if fd == s.listen_fd then some (accept_connections s) else serve_client fd mask s

  -- The entries of `events`.
  unfoldable pub serve_events : List (ℕ × ℕ) → Server Disk → Option (Server Disk)
  serve_events [] s = some s
  serve_events ((fd, mask) ∷ events) s = elim (serve_event fd mask s) [
    | none ↦ none
    | some s' ↦ serve_events events s'
  ]

  -- The loop of `main`, on what happens up to the return of each call of `event_loop_wait` and on what
  -- the call returns, until `running` is cleared.
  unfoldable pub main_loop : List (Outside Disk × Wait) → Server Disk → Option (Server Disk)
  unfolding serve_events
  main_loop [] s = some s
  main_loop ((world, interrupted_wait) ∷ waits) s = main_loop waits (meanwhile world s)
  main_loop ((world, failed_wait) ∷ waits) s = some (meanwhile world s)
  main_loop ((world, ready events) ∷ waits) s = elim (serve_events events (meanwhile world s)) [
    | none ↦ none
    | some s' ↦ main_loop waits s'
  ]
