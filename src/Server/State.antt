-- ===== src/Server/State.antt =====
-- server.c: `client_t`, and all that a handler of one connection reads and changes.
use file_system_server.Base.{
  ℕ, ◌++◌, Bool, true, false, not, ◌&&◌, List, [], ◌∷◌, Option, none, some, take, replicate,
  from_bytes, if◌then◌else◌,
}
use file_system_server.Common.{Verb, get, put}
use file_system_server.Os.{Socket, FileSystem}
use file_system_server.Collections.Vector.{Vector}
use file_system_server.Collections.Dictionary.{Dictionary, dictionary_remove}

abbrev pub max_header_len : ℕ
max_header_len = 1024

abbrev pub buffer_size : ℕ
buffer_size = 4096

abbrev pub size_len : ℕ
size_len = 8

-- `conn_state_t`.
pub data ConnState : Type 0 where
  recv_header : ConnState
  recv_put_size : ConnState
  recv_put_data : ConnState
  send_ok : ConnState
  send_error : ConnState
  send_get_size : ConnState
  send_get_data : ConnState
  send_list_data : ConnState
  done : ConnState

-- `client_t`. `header_len` is the length of `header_buf`; `file_fd` is `none` for -1; `size_buf` is the
-- memory of `expected_size`; `simple_response_buf` holds the bytes that were last written to it.
pub record Client : Type 0 where
  pub fd : ℕ
  pub state : ConnState
  pub request_verb : Verb
  pub header_buf : List ℕ
  pub filename : List ℕ
  pub file_fd : Option ℕ
  pub size_buf : List ℕ
  pub file_size : ℕ
  pub bytes_transferred : ℕ
  pub list_buf : List ℕ
  pub list_len : ℕ
  pub list_sent : ℕ
  pub simple_response_buf : List ℕ
  pub simple_response_len : ℕ
  pub simple_response_sent : ℕ

abbrev pub expected_size : Client → ℕ
expected_size c = from_bytes c.size_buf

-- The connection at hand, its socket and the events that the loop watches on it (`none` once it is
-- removed), with the globals of server.c. `freed` says that `client_destroy` has run, and `memory`
-- whether the next allocation succeeds.
pub record Machine (Disk : Type 0) : Type 0 where
  pub client : Client
  pub freed : Bool
  pub socket : Socket
  pub interest : Option ℕ
  pub disk : Disk
  pub server_files : Vector (List ℕ)
  pub fd_to_client : Dictionary Client
  pub temp_dir : List ℕ
  pub memory : Bool

unfoldable pub client_create : ℕ → Client
client_create fd = record {
  fd = fd;
  state = recv_header;
  request_verb = get;
  header_buf = [];
  filename = [];
  file_fd = none;
  size_buf = replicate size_len 0;
  file_size = 0;
  bytes_transferred = 0;
  list_buf = [];
  list_len = 0;
  list_sent = 0;
  simple_response_buf = [];
  simple_response_len = 0;
  simple_response_sent = 0;
}

abbrev pub is_put : Verb → Bool
is_put put = true
is_put _ = false

abbrev pub is_done : ConnState → Bool
is_done done = true
is_done _ = false

-- `snprintf(filepath, sizeof(filepath), "%s/%s", temp_dir, client->filename)`.
abbrev pub filepath : {Disk : Type 0} → Machine Disk → List ℕ
filepath m = take 1023 (m.temp_dir ++ b'/' ∷ m.client.filename)

-- `modify_event_loop(epfd, client->fd, events)`.
abbrev pub modify_event_loop : {Disk : Type 0} → ℕ → Machine Disk → Machine Disk
modify_event_loop events m = record m { interest = some events }

module _ (fs : FileSystem) where
  open fs use {Disk, close_file, unlink}

  -- `if (client->file_fd != -1) close(client->file_fd)`.
  abbrev pub close_if_open : Option ℕ → Disk → Disk
  close_if_open none d = d
  close_if_open (some f) d = close_file f d

  -- The upload that is given up: its file goes.
  abbrev pub unlink_upload : Machine Disk → Disk
  unlink_upload m =
      if is_put m.client.request_verb && not (is_done m.client.state)
      then (unlink (filepath m) m.disk).1
      else m.disk

  -- `close_and_cleanup`, with `client_destroy`.
  unfoldable pub close_and_cleanup : Machine Disk → Machine Disk
  close_and_cleanup m = record m {
    interest = none;
    disk = close_if_open m.client.file_fd (unlink_upload m);
    fd_to_client = dictionary_remove m.fd_to_client m.client.fd;
    freed = true;
  }
