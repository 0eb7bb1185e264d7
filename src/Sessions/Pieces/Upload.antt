-- ===== src/Sessions/Pieces/Upload.antt =====
-- PUT from end to end, when the bytes of the client arrive over any number of events.
use file_system_server.Base.{
  some_eq, ℕ, suc, ◌+◌, ◌-◌, ◌*◌, ◌^◌, ◌≤◌, ◌<◌, ◌≡◌, sym, ap, ◌∙◌, true, false, List, [], ◌∷◌,
  ◌++◌, some, arith, length, length-append, take, to_bytes, newline, append_assoc,
}
use file_system_server.Common.{put}
use file_system_server.Common.ReadLine.{NoNewline}
use file_system_server.Os.{Recv, Send, accepts, FileSystem}
use file_system_server.Server.{Machine, client_create, max_header_len, size_len}
use file_system_server.Server.Header.Line.{NoZero}
use file_system_server.Server.Names.Laws.{Stores}
use file_system_server.Server.Put.Stored.{IsAccepted, IsStored-IsAccepted}
use file_system_server.Server.Put.Upload.{Appends}
use file_system_server.Client.{LocalFiles, Session, request_text, command}
use file_system_server.Client.Handlers.{chunk, send_file}
use file_system_server.Client.Requests.{request_text-short}
use file_system_server.Sessions.Sending.{Blocking, send_file-sent}
use file_system_server.Sessions.Arrivals.{arrived_bytes, IsUnbroken, read_events}
use file_system_server.Sessions.Pieces.{IsUploaded}
use file_system_server.Sessions.Pieces.Whole.{put_pieces-IsStored}

module _ (files : LocalFiles) (fs : FileSystem) (f : ℕ) (file : Appends fs f) where
  open fs use {Disk, open_write, close_file}
  open file use {content}

  -- What the connection and the list are then.
  pub put_file_pieces-IsUploaded :
      (j fd k : ℕ) (rss : List (List Recv)) (name contents text : List ℕ) (s : Session files.Disk)
      (m : Machine Disk) (d : Disk) (outs : List Send)
      → s.socket.sent ≡ []
      → Blocking (suc (suc j)) s.socket.outcomes
      → length contents ≤ j * chunk
      → length contents < 256 ^ size_len
      → NoZero name
      → NoNewline name
      → length (command put) + length name < max_header_len - 1
      → request_text (command put) name ≡ some text
      → m.client ≡ client_create fd
      → m.freed ≡ false
      → m.socket.incoming ≡ []
      → m.socket.outcomes ≡ accepts k ∷ outs
      → 3 ≤ k
      → open_write (take 1023 (m.temp_dir ++ b'/' ∷ take 255 name)) m.disk ≡ (some f, d)
      → content d ≡ []
      → IsUnbroken rss
      → arrived_bytes rss ≡ (send_file files text (length contents) contents s).socket.sent
      → IsUploaded fs f file m name contents d (read_events fs (rss ++ [] ∷ []) m)
  put_file_pieces-IsUploaded j fd k rss name contents text s m d outs s0 room c small z nn lt t new
        live nothing o le opened empty p e =
      let line : text ≡ command put ++ (name ++ newline ∷ []) =
        some_eq (sym t ∙ request_text-short (command put) name lt) in
      let size : length text ≡ 4 + (length name + 1) = omega (
        arith,
        ap length line,
        length-append (command put) (name ++ newline ∷ []),
        length-append name (newline ∷ []),
      ) in
      let body : List ℕ = to_bytes size_len (length contents) ++ contents in
      put_pieces-IsStored fs f file m name contents d fd k rss outs new live nothing z nn lt o le
        small opened empty p
        (e
          ∙ send_file-sent files j text contents (length contents) s room (omega arith)
              (omega arith) c
          ∙ ap (λ q. q ++ (text ++ body)) s0
          ∙ ap (λ q. q ++ body) line
          ∙ ap (λ q. q ++ body) (sym (append_assoc (command put) name (newline ∷ [])))
          ∙ append_assoc (command put ++ name) (newline ∷ []) body)

  -- PUT from end to end, in pieces. The client has a file of fewer than 2 ^ 64 bytes and a name without
  -- zero bytes and newlines that fits the request, and its socket takes a buffer with each write, with
  -- signals between. What it sends arrives at a new, open connection of the server with nothing to
  -- read, cut in any way over any number of events, with calls interrupted; the server has memory and
  -- a list that has each name once, can open the file under the first 255 bytes of the name, empty, and
  -- append to it, and its socket takes the answer at once. Then with one event more the connection
  -- is closed: `OK` and nothing else is sent, the file is closed and holds exactly the client's bytes,
  -- and the list keeps the order of the old names, with the first 255 bytes of the name at its end if
  -- they were not in it.
  pub put_file_pieces-IsStored :
      (j fd k : ℕ) (rss : List (List Recv)) (name contents text : List ℕ) (xs : List (List ℕ))
      (s : Session files.Disk) (m : Machine Disk) (d : Disk) (outs : List Send)
      → s.socket.sent ≡ []
      → Blocking (suc (suc j)) s.socket.outcomes
      → length contents ≤ j * chunk
      → length contents < 256 ^ size_len
      → NoZero name
      → NoNewline name
      → length (command put) + length name < max_header_len - 1
      → request_text (command put) name ≡ some text
      → m.client ≡ client_create fd
      → m.freed ≡ false
      → m.socket.incoming ≡ []
      → m.socket.outcomes ≡ accepts k ∷ outs
      → 3 ≤ k
      → open_write (take 1023 (m.temp_dir ++ b'/' ∷ take 255 name)) m.disk ≡ (some f, d)
      → content d ≡ []
      → IsUnbroken rss
      → arrived_bytes rss ≡ (send_file files text (length contents) contents s).socket.sent
      → m.memory ≡ true
      → Stores m.server_files xs
      → (e : Disk) × IsAccepted fs
          (take 255 name)
          xs
          m
          (close_file f e)
          (read_events fs (rss ++ [] ∷ []) m)
        × (content e ≡ contents)
  put_file_pieces-IsStored j fd k rss name contents text xs s m d outs s0 room c small z nn lt t new
        live nothing o le opened empty p e memory h =
      let (end, stored, is) =
        put_file_pieces-IsUploaded j fd k rss name contents text s m d outs s0 room c small z nn lt
          t new live nothing o le opened empty p e in
      (end, IsStored-IsAccepted fs (take 255 name) xs m (close_file f end) _ memory h stored, is)
