-- ===== src/Sessions/PutGet.antt =====
-- PUT on one connection, then GET on another: the file that comes back.
use file_system_server.Base.{
  ℕ, suc, ◌+◌, ◌-◌, ◌*◌, ◌^◌, ◌≤◌, ◌<◌, ◌≡◌, sym, subst, ap, ◌∙◌, List, [], ◌∷◌, ◌++◌, some, length,
  take,
}
use file_system_server.Common.{put, get}
use file_system_server.Common.ReadLine.{NoNewline}
use file_system_server.Os.{Send, stream, accepts, FileSystem}
use file_system_server.Server.{Machine, client_create, max_header_len, size_len, buffer_size}
use file_system_server.Server.Header.{handle_read_event}
use file_system_server.Server.Header.Line.{NoZero}
use file_system_server.Server.Put.Upload.{Appends}
use file_system_server.Server.Get.Download.{Readable}
use file_system_server.Server.Get.Whole.{HasRoom}
use file_system_server.Client.{LocalFiles, Session, request_text, command}
use file_system_server.Client.Answer.{read_answer}
use file_system_server.Client.Handlers.{chunk, send_file, receive_file}
use file_system_server.Client.Download.{Grows}
use file_system_server.Sessions.Sending.{Blocking}
use file_system_server.Sessions.Put.{put_file-IsStored}
use file_system_server.Sessions.Get.{three_events, get_file-same}

-- A path that can be opened for writing, which empties its file, and then for reading, which gives what was
-- in the file when it was closed.
pub record IsFile (fs : FileSystem) (path : List ℕ) : Type 0 where
  pub writer : ℕ
  pub appends : Appends fs writer
  pub emptied :
      (d : fs.Disk)
      → (d0 : fs.Disk) × (fs.open_write path d ≡ (some writer, d0)) × (appends.content d0 ≡ [])
  pub reader : ℕ
  pub readable : Readable fs reader
  pub reopened :
      (d : fs.Disk)
      → (d1 : fs.Disk) × (fs.open_read path (fs.close_file writer d) ≡ (some reader, d1))
        × (readable.content d1 ≡ appends.content d)
  pub sized : (d : fs.Disk) → fs.fstat_size reader d ≡ some (length (readable.content d))

-- A client puts a file of fewer than 2 ^ 64 bytes on the server under a name without zero bytes and
-- newlines that fits the request: its socket takes a buffer with each write, what it sends arrives at
-- a new connection cut into any pieces, and the server's socket takes the answer at once. Then a
-- client gets the file of that name over another new connection, where the server's socket takes the
-- line, the size and a buffer with each write behind. The path of the name can be opened for writing
-- and reading, and nothing else changes the disk between. Then the second client's local file, created
-- empty, comes to hold exactly the bytes that the first had.
pub put_get-same :
    (files : LocalFiles) (g : ℕ) (local_file : Grows files g) (fs : FileSystem)
    (j k n fd1 fd2 n1 n2 : ℕ) (name contents put_text get_text local more : List ℕ)
    (s1 s2 : Session files.Disk) (m1 m2 : Machine fs.Disk) (e : files.Disk)
    (outs1 outs2 : List Send)
    → IsFile fs (take 1023 (m1.temp_dir ++ b'/' ∷ take 255 name))
    → length contents < 256 ^ size_len
    → NoZero name
    → NoNewline name
    → length (command put) + length name < max_header_len - 1
    → request_text (command put) name ≡ some put_text
    → s1.socket.sent ≡ []
    → Blocking (suc (suc j)) s1.socket.outcomes
    → length contents ≤ j * chunk
    → m1.client ≡ client_create fd1
    → m1.socket.outcomes ≡ accepts n ∷ outs1
    → 3 ≤ n
    → stream m1.socket.incoming
      ≡ (send_file files put_text (length contents) contents s1).socket.sent
    → request_text (command get) name ≡ some get_text
    → m2.client ≡ client_create fd2
    → m2.temp_dir ≡ m1.temp_dir
    → m2.disk ≡ (handle_read_event fs (handle_read_event fs m1)).disk
    → stream m2.socket.incoming ≡ get_text
    → m2.socket.sent ≡ []
    → m2.socket.outcomes ≡ accepts n1 ∷ accepts n2 ∷ outs2
    → 3 ≤ n1
    → size_len ≤ n2
    → HasRoom k outs2
    → length contents ≤ k * buffer_size
    → files.create local s2.disk ≡ (some g, e)
    → local_file.content e ≡ []
    → stream s2.socket.incoming ≡ (three_events fs m2).socket.sent ++ more
    → local_file.content (read_answer (receive_file files local) s2).disk ≡ contents
put_get-same files g local_file fs j k n fd1 fd2 n1 n2 name contents put_text get_text local more s1
      s2 m1 m2 e outs1 outs2 file small z nn lt put_line s0 room1 c1 new1 o1 le arrives1 get_line
      new2 same_dir same_disk arrives2 m0 o2 le1 le2 room2 c2 created empty back =
    let (d0, opened, no_bytes) = file.emptied m1.disk in
    let (d, stored, is) =
      put_file-IsStored files fs file.writer file.appends j fd1 n name contents put_text s1 m1 d0
        outs1 s0 room1 c1 small z nn lt put_line new1 o1 le opened no_bytes arrives1 in
    let (d1, reopened, bytes) = file.reopened d in
    let same : file.readable.content d1 ≡ contents = bytes ∙ is in
    let disk : m2.disk ≡ fs.close_file file.writer d = same_disk ∙ stored.disk in
    let found : fs.open_read (take 1023 (m2.temp_dir ++ b'/' ∷ take 255 name)) m2.disk
        ≡ (some file.reader, d1) =
      ap (λ t. fs.open_read (take 1023 (t ++ b'/' ∷ take 255 name)) m2.disk) same_dir
      ∙ ap (fs.open_read (take 1023 (m1.temp_dir ++ b'/' ∷ take 255 name))) disk
      ∙ reopened in
    (get_file-same fs file.reader file.readable files g local_file fd2 n1 n2 k name get_text local
      more m2 s2 outs2 d1 e z nn lt get_line new2 arrives2 m0 o2 le1 le2 room2
      (subst (λ q. length q ≤ k * buffer_size) (sym same) c2)
      (subst (λ q. length q < 256 ^ size_len) (sym same) small) found (file.sized d1) created empty
      back).1
    ∙ same
