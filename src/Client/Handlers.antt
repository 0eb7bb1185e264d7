-- ===== src/Client/Handlers.antt =====
-- client.c, `handle_get`, `handle_put`, `handle_delete` and `handle_list`.
use file_system_server.Base.{
  ℕ, zero, suc, ◌+◌, ◌-◌, true, false, List, [], ◌∷◌, Option, none, some, length, take, drop, ltb,
  ◌==◌, codes, to_bytes, from_bytes, if◌then◌else◌,
}
use file_system_server.Common.{get, put, delete}
use file_system_server.Os.{ReadResult, got, eof, eintr, eagain, failed, read_from, weight}
use file_system_server.Common.ReadAll.{read_all_from_socket}
use file_system_server.Common.ReadLine.{get_file_size}
use file_system_server.Client.State.{
  LocalFiles, Session, too_little_data, received_too_much_data, success, local_error, out_of_memory,
  standard_output, print, with_rest, send_all, request_text, command,
}
use file_system_server.Client.Answer.{read_answer}

abbrev pub word : ℕ
word = 8

abbrev pub chunk : ℕ
chunk = 4096

-- `shutdown(socket, SHUT_WR)`.
abbrev pub shutdown_writes : {Disk : Type 0} → Session Disk → Session Disk
shutdown_writes s = record s { write_side_open = false }

-- The one byte that is read behind the data.
unfoldable pub after_extra : {Disk : Type 0} → ReadResult → Session Disk → Session Disk
after_extra (got bs rest) s = print received_too_much_data (with_rest rest s)
after_extra (eof rest) s = with_rest rest s
after_extra (eintr rest) s = with_rest rest s
after_extra (eagain rest) s = with_rest rest s
after_extra (failed rest) s = with_rest rest s

unfoldable pub extra_byte : {Disk : Type 0} → Session Disk → Session Disk
unfolding after_extra
extra_byte s = after_extra (read_from 1 s.socket.incoming) s

-- `read_all_from_socket(socket, (char *)&size, sizeof(size_t))`: `none` for less than eight bytes.
abbrev pub full_word : Option (List ℕ) → Option ℕ
full_word none = none
full_word (some bs) = if length bs == word then some (from_bytes bs) else none

module _ (files : LocalFiles) where
  open files use {Disk, create, write_file, close_file, fopen_contents, stat_size}

  abbrev pub give_up : ℕ → Session Disk → Session Disk
  give_up local_fd s =
      let s' = print too_little_data s in record s' { disk = close_file local_fd s'.disk }

  abbrev pub download_len : ℕ → ℕ → ℕ
  download_len file_size total = if ltb (file_size - total) chunk then file_size - total else chunk

  abbrev pub stored : ℕ → List ℕ → Session Disk → Session Disk
  stored local_fd bs s = record s { disk = write_file local_fd bs s.disk }

  -- The loop of `handle_get`, with what follows it. The fuel bounds the rounds, each of which reads at
  -- least one byte.
  unfoldable pub get_loop : ℕ → ℕ → ℕ → ℕ → Session Disk → Session Disk
  unfolding extra_byte
  get_loop zero local_fd file_size total s = s
  get_loop (suc fuel) local_fd file_size total s = elim (ltb total file_size) [
    | false ↦ (let s' = extra_byte s in record s' { disk = close_file local_fd s'.disk })
    | true ↦
        let r = read_all_from_socket (download_len file_size total) s.socket.incoming in
        elim r.0 [
          | none ↦ give_up local_fd (with_rest r.1 s)
          | some [] ↦ give_up local_fd (with_rest r.1 s)
          | some (b ∷ bs) ↦
              get_loop fuel local_fd file_size (total + suc (length bs))
                (stored local_fd (b ∷ bs) (with_rest r.1 s))
        ]
  ]

  abbrev pub local_opened : ℕ → Option ℕ × Disk → Session Disk → Session Disk
  unfolding get_loop
  local_opened file_size (none, d) s = print local_error (record s { disk = d })
  local_opened file_size (some local_fd, d) s =
      get_loop (suc (weight s.socket.incoming)) local_fd file_size 0 (record s { disk = d })

  abbrev pub download_size : List ℕ → Option ℕ → Session Disk → Session Disk
  download_size local none s = print too_little_data s
  download_size local (some file_size) s = local_opened file_size (create local s.disk) s

  unfoldable pub receive_file : List ℕ → Session Disk → Session Disk
  receive_file local s =
      let r = read_all_from_socket word s.socket.incoming in
      download_size local (full_word r.0) (with_rest r.1 s)

  -- A handler whose request is not cut off: `none` where it reads past its buffer.
  abbrev pub with_request : Option (List ℕ) → (List ℕ → Session Disk) → Option (Session Disk)
  with_request none k = none
  with_request (some text) k = some (k text)

  unfoldable pub handle_get : List ℕ → List ℕ → Session Disk → Option (Session Disk)
  unfolding read_answer receive_file send_all
  handle_get remote local s =
      with_request (request_text (command get) remote)
        (λ text. read_answer (receive_file local) (shutdown_writes (send_all text s)))

  abbrev pub put_answer : Session Disk → Session Disk
  put_answer s = print success s

  unfoldable pub handle_delete : List ℕ → Session Disk → Option (Session Disk)
  unfolding read_answer send_all
  handle_delete remote s =
      with_request (request_text (command delete) remote)
        (λ text. read_answer put_answer (shutdown_writes (send_all text s)))

  -- The loop of `fread`; the fuel bounds the chunks.
  unfoldable pub send_chunks : ℕ → List ℕ → Session Disk → Session Disk
  unfolding send_all
  send_chunks zero contents s = s
  send_chunks (suc fuel) [] s = s
  send_chunks (suc fuel) (b ∷ bs) s =
      send_chunks fuel (drop chunk (b ∷ bs)) (send_all (take chunk (b ∷ bs)) s)

  unfoldable pub send_file : List ℕ → ℕ → List ℕ → Session Disk → Session Disk
  unfolding send_chunks send_all
  send_file text file_size contents s =
      send_chunks (length contents) contents (send_all (to_bytes word file_size) (send_all text s))

  abbrev pub put_opened : List ℕ → ℕ → Option (List ℕ) → Session Disk → Option (Session Disk)
  unfolding read_answer send_file
  put_opened remote file_size none s = some (print local_error s)
  put_opened remote file_size (some contents) s =
      with_request (request_text (command put) remote)
        (λ text. read_answer put_answer (shutdown_writes (send_file text file_size contents s)))

  unfoldable pub handle_put : List ℕ → List ℕ → Session Disk → Option (Session Disk)
  handle_put remote local s =
      put_opened remote (get_file_size (stat_size local s.disk)) (fopen_contents local s.disk) s

  -- What `handle_list` does with the bytes of the list.
  abbrev pub list_read : ℕ → Option (List ℕ) → Session Disk → Session Disk
  unfolding extra_byte
  list_read list_size none s = print too_little_data s
  list_read list_size (some bs) s =
      if length bs == list_size
      then extra_byte (print (standard_output bs) s)
      else print too_little_data s

  abbrev pub list_known : Option ℕ → Session Disk → Session Disk
  list_known none s = print too_little_data s
  list_known (some list_size) s =
      let r = read_all_from_socket list_size s.socket.incoming in
      if list_size == 0
      then s
      else if s.memory
      then list_read list_size r.0 (with_rest r.1 s)
      else print out_of_memory s

  unfoldable pub receive_list : Session Disk → Session Disk
  receive_list s =
      let r = read_all_from_socket word s.socket.incoming in
      list_known (full_word r.0) (with_rest r.1 s)

  unfoldable pub handle_list : Session Disk → Session Disk
  unfolding read_answer receive_list send_all
  handle_list s = read_answer receive_list (shutdown_writes (send_all (codes "LIST\n") s))
