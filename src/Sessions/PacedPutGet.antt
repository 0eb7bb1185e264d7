-- ===== src/Sessions/PacedPutGet.antt =====
-- PUT on one connection in any pieces, then GET on another at any pace.
use file_system_server.Base.{
  ℕ, suc, ◌+◌, ◌-◌, ◌*◌, ◌^◌, ◌≤◌, ◌<◌, ◌≡◌, sym, subst, ap, ◌∙◌, false, List, [], ◌∷◌, ◌++◌, some,
  length, take,
}
use file_system_server.Common.{put, get}
use file_system_server.Common.ReadLine.{NoNewline}
use file_system_server.Os.{Recv, Send, stream, accepts, FileSystem, IsTaking}
use file_system_server.Server.{Machine, client_create, max_header_len, size_len}
use file_system_server.Server.Header.Line.{NoZero}
use file_system_server.Server.Answer.Rounds.{IsSteady}
use file_system_server.Client.{LocalFiles, Session, request_text, command}
use file_system_server.Client.Answer.{read_answer}
use file_system_server.Client.Handlers.{chunk, send_file, receive_file}
use file_system_server.Client.Download.{Grows}
use file_system_server.Sessions.Sending.{Blocking}
use file_system_server.Sessions.Arrivals.{arrived_bytes, IsUnbroken, read_events}
use file_system_server.Sessions.Pieces.Upload.{put_file_pieces-IsUploaded}
use file_system_server.Sessions.Paced.{answered, get_file_paced-same}
use file_system_server.Sessions.PutGet.{IsFile}

-- A client puts a file of fewer than 2 ^ 64 bytes on the server under a name without zero bytes and
-- newlines that fits the request: its socket takes a buffer with each write, what it sends arrives at
-- a new, open connection with nothing to read, cut in any way over any number of events and one event
-- more, and the server's socket takes the answer at once. Then a client gets the file of that name over
-- another new, open connection, whose socket, when the answer is begun and at each of as many write
-- events as the answer has bytes, has room for a write and takes a byte at least with each. The path of
-- the name can be opened for writing and reading, and nothing else changes the disk between. Then the
-- second client's local file, created empty, comes to hold exactly the bytes that the first had.
pub put_get_paced-same :
    (files : LocalFiles) (g : ℕ) (local_file : Grows files g) (fs : FileSystem) (j n fd1 fd2 : ℕ)
    (name contents put_text get_text local more : List ℕ) (s1 s2 : Session files.Disk)
    (m1 m2 : Machine fs.Disk) (e : files.Disk) (rss : List (List Recv)) (outs1 : List Send)
    (os : List (List Send))
    → IsFile fs (take 1023 (m1.temp_dir ++ b'/' ∷ take 255 name))
    → length contents < 256 ^ size_len
    → NoZero name
    → NoNewline name
    → length (command put) + length name < max_header_len - 1
    → request_text (command put) name ≡ some put_text
    → s1.socket.sent ≡ []
    → Blocking (suc (suc j)) s1.socket.outcomes
    → length contents ≤ j * chunk
    → m1.client ≡ client_create fd1
    → m1.freed ≡ false
    → m1.socket.incoming ≡ []
    → m1.socket.outcomes ≡ accepts n ∷ outs1
    → 3 ≤ n
    → IsUnbroken rss
    → arrived_bytes rss ≡ (send_file files put_text (length contents) contents s1).socket.sent
    → request_text (command get) name ≡ some get_text
    → m2.client ≡ client_create fd2
    → m2.freed ≡ false
    → m2.temp_dir ≡ m1.temp_dir
    → m2.disk ≡ (read_events fs (rss ++ [] ∷ []) m1).disk
    → stream m2.socket.incoming ≡ get_text
    → m2.socket.sent ≡ []
    → IsTaking m2.socket.outcomes
    → 0 < length m2.socket.outcomes
    → IsSteady os
    → 3 + (size_len + length contents) ≤ length os
    → files.create local s2.disk ≡ (some g, e)
    → local_file.content e ≡ []
    → stream s2.socket.incoming ≡ (answered fs os m2).socket.sent ++ more
    → local_file.content (read_answer (receive_file files local) s2).disk ≡ contents
put_get_paced-same files g local_file fs j n fd1 fd2 name contents put_text get_text local more s1
      s2 m1 m2 e rss outs1 os file small z nn lt put_line s0 room c1 new1 live1 nothing o1 le
      unbroken arrives1 get_line new2 live2 same_dir same_disk arrives2 m0 taking pos steady enough
      created empty back =
    let (d0, opened, no_bytes) = file.emptied m1.disk in
    let (d, stored, is) =
      put_file_pieces-IsUploaded files fs file.writer file.appends j fd1 n rss name contents
        put_text s1 m1 d0 outs1 s0 room c1 small z nn lt put_line new1 live1 nothing o1 le opened
        no_bytes unbroken arrives1 in
    let (d1, reopened, bytes) = file.reopened d in
    let same : file.readable.content d1 ≡ contents = bytes ∙ is in
    let disk : m2.disk ≡ fs.close_file file.writer d = same_disk ∙ stored.disk in
    let found : fs.open_read (take 1023 (m2.temp_dir ++ b'/' ∷ take 255 name)) m2.disk
        ≡ (some file.reader, d1) =
      ap (λ t. fs.open_read (take 1023 (t ++ b'/' ∷ take 255 name)) m2.disk) same_dir
      ∙ ap (fs.open_read (take 1023 (m1.temp_dir ++ b'/' ∷ take 255 name))) disk
      ∙ reopened in
    (get_file_paced-same fs file.reader file.readable files g local_file fd2 name get_text local
      more m2 s2 os d1 e z nn lt get_line new2 live2 arrives2 m0 taking pos steady
      (subst (λ q. 3 + (size_len + length q) ≤ length os) (sym same) enough)
      (subst (λ q. length q < 256 ^ size_len) (sym same) small) found (file.sized d1) created empty
      back).1
    ∙ same
