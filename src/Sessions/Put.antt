-- ===== src/Sessions/Put.antt =====
-- PUT: the bytes that `handle_put` of client.c sends, and what the server stores of them.
use file_system_server.Base.{
  some_eq, ℕ, suc, ◌+◌, ◌-◌, ◌*◌, ◌^◌, ◌≤◌, ◌<◌, ◌≡◌, refl, sym, ap, ◌∙◌, List, [], ◌∷◌, ◌++◌, none,
  some, arith, length, length-append, take, to_bytes, newline,
}
use file_system_server.Common.{put}
use file_system_server.Common.ReadLine.{NoNewline}
use file_system_server.Os.{Send, stream, accepts, FileSystem}
use file_system_server.Server.{Machine, client_create, max_header_len, size_len}
use file_system_server.Server.Header.{
  start_request, start_put, set_verb, handle_read_event, read_event,
}
use file_system_server.Server.Header.Line.{NoZero, headed}
use file_system_server.Server.Put.Stored.{IsStored, stored_ok-IsStored}
use file_system_server.Server.Put.Upload.{Appends}
use file_system_server.Server.Put.Size.{put_done, recv_put_size-stored}
use file_system_server.Client.{LocalFiles, Session, request_text, command}
use file_system_server.Client.Handlers.{chunk, send_file}
use file_system_server.Client.Requests.{request_text-short, request_understood}
use file_system_server.Sessions.Sending.{Blocking, send_file-sent}

module _ (files : LocalFiles) (fs : FileSystem) (f : ℕ) (file : Appends fs f) where
  open fs use {Disk, open_write, close_file}
  open file use {content}

  -- The second read event: the size and the bytes of the file.
  contents-IsStored :
      (m : Machine Disk) (k : ℕ) (outs : List Send) (name contents : List ℕ) (d : Disk)
      → length m.client.size_buf ≡ size_len
      → m.client.file_fd ≡ none
      → m.socket.outcomes ≡ accepts k ∷ outs
      → 3 ≤ k
      → open_write (take 1023 (m.temp_dir ++ b'/' ∷ take 255 name)) m.disk ≡ (some f, d)
      → content d ≡ []
      → length contents < 256 ^ size_len
      → stream m.socket.incoming ≡ to_bytes size_len (length contents) ++ contents
      → (d' : Disk) × IsStored fs
          (take 255 name)
          m
          (close_file f d')
          (handle_read_event fs (start_put fs name (set_verb put m)))
        × (content d' ≡ contents)
  unfolding handle_read_event read_event
  contents-IsStored m k outs name contents d b h o le opened empty small e =
      let m1 = start_put fs name (set_verb put m) in
      let (rest, d', out, is) =
        recv_put_size-stored fs f file m1 d contents refl b opened empty small e in
      let m2 = put_done fs m1 rest (length contents) (close_file f d') in
      let end = stored_ok-IsStored fs m2 k outs refl refl o le in
      (
        d',
        record {
          closed = ap (λ z. z.freed) out ∙ end.closed;
          disk = ap (λ z. z.disk) out ∙ end.disk;
          answered = ap (λ z. z.socket.sent) out ∙ end.answered;
          names = ap (λ z. z.server_files) out ∙ end.names;
        },
        is,
      )

  -- PUT from end to end. The client has a file of fewer than 2 ^ 64 bytes and a name without zero
  -- bytes and newlines that fits the request, and its socket takes a buffer with each write, with
  -- signals between. What it sends arrives at a new connection of the server, cut into any pieces and
  -- with calls interrupted; the server can open the file under the name, empty, and append to it, and
  -- its socket takes the answer at once. Then two read events end the connection: `OK` is sent, the
  -- file is closed and holds the client's bytes, and the name is added to the list.
  pub put_file-IsStored :
      (k fd n : ℕ) (name contents text : List ℕ) (s : Session files.Disk) (m : Machine Disk)
      (d : Disk) (outs : List Send)
      → s.socket.sent ≡ []
      → Blocking (suc (suc k)) s.socket.outcomes
      → length contents ≤ k * chunk
      → length contents < 256 ^ size_len
      → NoZero name
      → NoNewline name
      → length (command put) + length name < max_header_len - 1
      → request_text (command put) name ≡ some text
      → m.client ≡ client_create fd
      → m.socket.outcomes ≡ accepts n ∷ outs
      → 3 ≤ n
      → open_write (take 1023 (m.temp_dir ++ b'/' ∷ take 255 name)) m.disk ≡ (some f, d)
      → content d ≡ []
      → stream m.socket.incoming ≡ (send_file files text (length contents) contents s).socket.sent
      → (d' : Disk) × IsStored fs
          (take 255 name)
          m
          (close_file f d')
          (handle_read_event fs (handle_read_event fs m))
        × (content d' ≡ contents)
  unfolding client_create start_request
  put_file-IsStored k fd n name contents text s m d outs s0 room c small z nn lt t new o le opened
        empty e =
      let line : text ≡ command put ++ (name ++ newline ∷ []) =
        some_eq (sym t ∙ request_text-short (command put) name lt) in
      let size : length text ≡ 4 + (length name + 1) = omega (
        arith,
        ap length line,
        length-append (command put) (name ++ newline ∷ []),
        length-append name (newline ∷ []),
      ) in
      let sent =
        send_file-sent files k text contents (length contents) s room (omega arith) (omega arith)
          c in
      let body : List ℕ = to_bytes size_len (length contents) ++ contents in
      let arrives : stream m.socket.incoming ≡ text ++ body =
        e ∙ sent ∙ ap (λ q. q ++ (text ++ body)) s0 in
      let (rest, out, left) =
        request_understood fs m put name body text tt (ap (λ q. q.state) new)
          (ap (λ q. q.header_buf) new) z nn lt t arrives in
      let (d', stored, is) =
        contents-IsStored (headed fs m text rest) n outs name contents d
          (ap (λ q. length q.size_buf) new) (ap (λ q. q.file_fd) new) o le opened empty small
          left in
      (
        d',
        record {
          closed = ap (λ q. (handle_read_event fs q).freed) out ∙ stored.closed;
          disk = ap (λ q. (handle_read_event fs q).disk) out ∙ stored.disk;
          answered = ap (λ q. (handle_read_event fs q).socket.sent) out ∙ stored.answered;
          names = ap (λ q. (handle_read_event fs q).server_files) out ∙ stored.names;
        },
        is,
      )
