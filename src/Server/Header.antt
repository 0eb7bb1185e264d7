-- ===== src/Server/Header.antt =====
-- server.c, the request line: how it is read, and what it starts.
pub mod Line
pub mod Pieces
use file_system_server.Base.{
  ℕ, zero, suc, ◌-◌, true, false, List, [], ◌∷◌, ◌++◌, Option, none, some, length, take, codes,
  newline, space, str_eq, split_at, c_string, ltb, leb, ◌==◌, if◌then◌else◌,
}
use file_system_server.Common.{Verb, get, put, delete, list, v_unknown}
use file_system_server.Format.{err_bad_request}
use file_system_server.EventLoop.{event_read}
use file_system_server.Os.{got, eof, eintr, eagain, failed, read_from, weight, FileSystem}
use file_system_server.Server.State.{
  ConnState, recv_header, recv_put_size, recv_put_data, Machine, max_header_len, modify_event_loop,
  close_and_cleanup,
}
use file_system_server.Server.Response.{ok, error, prepare_and_send_response}
use file_system_server.Server.Put.{with_incoming, recv_put_size_handler, recv_put_data_handler}
use file_system_server.Server.Get.{start_send_get}
use file_system_server.Server.Delete.{delete_request}

-- The verb and, behind the first space, the file name of a line.
unfoldable pub split_line : List ℕ → List ℕ × Option (List ℕ)
split_line line = elim (split_at space line) [
  | none ↦ (line, none)
  | some (verb_str, filename) ↦ (verb_str, some filename)
]

-- The ladder of `strcmp`.
unfoldable pub parse_verb : List ℕ → Verb
parse_verb s =
    if str_eq s (codes "LIST")
    then list
    else if str_eq s (codes "DELETE")
    then delete
    else if str_eq s (codes "GET")
    then get
    else if str_eq s (codes "PUT")
    then put
    else v_unknown

-- `strncpy(client->filename, filename, sizeof(client->filename) - 1)`, into a buffer of zeros.
abbrev pub set_filename : {Disk : Type 0} → List ℕ → Machine Disk → Machine Disk
set_filename name m = record m { client = record m.client { filename = take 255 name } }

abbrev pub set_verb : {Disk : Type 0} → Verb → Machine Disk → Machine Disk
set_verb v m = record m { client = record m.client { request_verb = v } }

module _ (fs : FileSystem) where
  open fs use {Disk}

  abbrev pub bad_request : Machine Disk → Machine Disk
  bad_request m = prepare_and_send_response fs (error err_bad_request) m

  abbrev pub start_put : List ℕ → Machine Disk → Machine Disk
  start_put name m = modify_event_loop event_read (record m {
    client = record m.client {
      filename = take 255 name;
      bytes_transferred = 0;
      state = recv_put_size;
    };
  })

  -- The branches of `parse_header_and_transition`; an unknown verb is not stored.
  unfoldable pub start_request : Verb → Option (List ℕ) → Machine Disk → Machine Disk
  start_request list none m = prepare_and_send_response fs ok (set_verb list m)
  start_request list (some name) m = bad_request (set_verb list m)
  start_request delete none m = bad_request (set_verb delete m)
  start_request delete (some name) m = delete_request fs (set_filename name (set_verb delete m))
  start_request get none m = bad_request (set_verb get m)
  start_request get (some name) m = start_send_get fs (set_filename name (set_verb get m))
  start_request put none m = bad_request (set_verb put m)
  start_request put (some name) m = start_put name (set_verb put m)
  start_request v_unknown filename m = bad_request m

  -- `strchr` does not look behind a zero byte.
  unfoldable pub parse_header_and_transition : Machine Disk → Machine Disk
  unfolding start_request
  parse_header_and_transition m = elim (split_at newline (c_string m.client.header_buf)) [
    | none ↦ m
    | some (line, rest) ↦ start_request (parse_verb (split_line line).0) (split_line line).1 m
  ]

  abbrev pub header_byte : ℕ → Machine Disk → Machine Disk
  header_byte c m = record m {
    client = record m.client { header_buf = m.client.header_buf ++ c ∷ [] };
  }

  -- Behind the loop: a header that fills the buffer is refused.
  abbrev pub header_full : Machine Disk → Machine Disk
  header_full m = if leb (max_header_len - 1) (length m.client.header_buf) then bad_request m else m

  unfoldable pub recv_header_loop : ℕ → Machine Disk → Machine Disk
  recv_header_loop zero m = m
  recv_header_loop (suc fuel) m = elim (ltb (length m.client.header_buf) (max_header_len - 1)) [
    | false ↦ header_full m
    | true ↦ elim (read_from 1 m.socket.incoming) [
      | got bs rest ↦ elim bs [
        | [] ↦ m
        | c ∷ cs ↦ elim (c == newline) [
          | true ↦ parse_header_and_transition (header_byte c (with_incoming rest m))
          | false ↦ recv_header_loop fuel (header_byte c (with_incoming rest m))
        ]
      ]
      | eintr rest ↦ recv_header_loop fuel (with_incoming rest m)
      | eagain rest ↦ header_full (with_incoming rest m)
      | failed rest ↦ close_and_cleanup fs (with_incoming rest m)
      | eof rest ↦ close_and_cleanup fs (with_incoming rest m)
    ]
  ]

  -- `handle_read_event`, by the state.
  unfoldable pub read_event : ConnState → Machine Disk → Machine Disk
  unfolding recv_header_loop
  read_event recv_header m = recv_header_loop (weight m.socket.incoming) m
  read_event recv_put_size m = recv_put_size_handler fs m
  read_event recv_put_data m = recv_put_data_handler fs m
  read_event _ m = m

  unfoldable pub handle_read_event : Machine Disk → Machine Disk
  unfolding read_event
  handle_read_event m = read_event m.client.state m
