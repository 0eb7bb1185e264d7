-- ===== src/Sessions/Get.antt =====
-- GET: what the server sends of a file, and what `handle_get` of client.c makes of it.
use file_system_server.Base.{
  ℕ, ◌+◌, ◌-◌, ◌*◌, ◌^◌, ◌≤◌, ◌<◌, ◌≡◌, refl, sym, ap, ◌∙◌, true, List, [], ◌∷◌, ◌++◌, some, arith,
  length, take, to_bytes, length-to_bytes, codes, append_assoc, append-nil, str_eq, c_string,
  take_all,
}
use file_system_server.Common.{get}
use file_system_server.Common.ReadLine.{NoNewline, read_line_from_socket, read_line_from_socket_lem}
use file_system_server.EventLoop.{event_write}
use file_system_server.Os.{
  Send, Recv, stream, accepts, FileSystem, write, wrote, after_write, write_whole,
}
use file_system_server.Server.{
  send_get_size, send_get_data, Machine, client_create, max_header_len, size_len, buffer_size,
  filepath, modify_event_loop,
}
use file_system_server.Server.Header.{set_filename, set_verb, handle_read_event, start_request}
use file_system_server.Server.Header.Line.{NoZero, headed}
use file_system_server.Server.Events.{handle_write_event, write_event}
use file_system_server.Server.Response.{ok, ok_sent, response_sent, start_send_list}
use file_system_server.Server.Response.Delivery.{responded, prepare_and_send_response_whole}
use file_system_server.Server.Get.{
  start_send_get, size_known, download_opened, size_filled, size_prepared, write_size,
  send_get_size_handler,
}
use file_system_server.Server.Get.Download.{Readable}
use file_system_server.Server.Get.Whole.{HasRoom, send_get_data-IsSent}
use file_system_server.Client.{LocalFiles, Session, request_text, command, with_rest}
use file_system_server.Client.Answer.{line_size, status_answer, read_answer}
use file_system_server.Client.Handlers.{receive_file}
use file_system_server.Client.Download.{Grows, receive_file_whole}
use file_system_server.Client.Requests.{request_understood}

-- The client's side of the line `OK`.
pub read_answer-ok :
    {Disk : Type 0} (on_ok : Session Disk → Session Disk) (s : Session Disk) (more : List ℕ)
    → stream s.socket.incoming ≡ codes "OK\n" ++ more
    → (rest : List Recv) × (read_answer on_ok s ≡ on_ok (with_rest rest s)) × (stream rest ≡ more)
unfolding read_answer status_answer c_string str_eq
read_answer-ok on_ok s more e =
    let r = read_line_from_socket line_size s.socket.incoming in
    let line =
      read_line_from_socket_lem line_size (79 ∷ 75 ∷ []) more s.socket.incoming (refl, (refl, tt)) e
        (omega arith) in
    (r.1, rw (read_answer, line.got_line) refl, line.left)

-- A readable event and two writable ones.
abbrev pub three_events : (fs : FileSystem) → Machine fs.Disk → Machine fs.Disk
three_events fs m = handle_write_event fs (handle_write_event fs (handle_read_event fs m))

module _ (fs : FileSystem) (f : ℕ) (file : Readable fs f) where
  open fs use {Disk, open_read, fstat_size}
  open file use {content}

  -- The connection between the line `OK` and the size.
  abbrev pub announced : Machine Disk → List Send → Disk → Machine Disk
  announced m outs d = modify_event_loop event_write (record m {
    disk = d;
    socket = record m.socket { outcomes = outs; sent = m.socket.sent ++ codes "OK\n" };
    client = record m.client {
      file_fd = some f;
      file_size = length (content d);
      bytes_transferred = 0;
      simple_response_buf = codes "OK\n";
      simple_response_len = 0;
      simple_response_sent = 0;
      state = send_get_size;
    };
  })

  start_send_get-announced :
      (m : Machine Disk) (n : ℕ) (outs : List Send) (d : Disk)
      → m.client.request_verb ≡ get
      → m.socket.outcomes ≡ accepts n ∷ outs
      → 3 ≤ n
      → open_read (filepath m) m.disk ≡ (some f, d)
      → fstat_size f d ≡ some (length (content d))
      → start_send_get fs m ≡ announced m outs d
  unfolding start_send_get response_sent ok_sent
  start_send_get-announced m n outs d v o le opened size =
      let m1 = record m {
        disk = d;
        client = record m.client {
          file_fd = some f;
          file_size = length (content d);
          bytes_transferred = 0;
        };
      } in
      ap (λ r. download_opened fs r m) opened
      ∙ ap (λ r. size_known fs f r (record m { disk = d })) size
      ∙ prepare_and_send_response_whole fs ok m1 n outs (omega arith) o le
      ∙ ap (λ q. ok_sent fs (start_send_list fs) q (responded fs ok outs m1)) v

  -- The connection whose size is sent.
  abbrev pub sized : Machine Disk → List Send → Machine Disk
  sized m outs = modify_event_loop event_write (record m {
    socket = record m.socket {
      outcomes = outs;
      sent = m.socket.sent ++ to_bytes size_len m.client.file_size;
    };
    client = record m.client {
      simple_response_buf = to_bytes size_len m.client.file_size;
      simple_response_len = 0;
      simple_response_sent = 0;
      state = send_get_data;
    };
  })

  send_get_size-sized :
      (m : Machine Disk) (n : ℕ) (outs : List Send)
      → m.client.simple_response_len ≡ 0
      → m.socket.outcomes ≡ accepts n ∷ outs
      → size_len ≤ n
      → send_get_size_handler fs m ≡ sized m outs
  unfolding send_get_size_handler write_size
  send_get_size-sized m n outs z o le =
      let head : List ℕ = to_bytes size_len m.client.file_size in
      let eight : length head ≡ size_len = length-to_bytes size_len m.client.file_size in
      let prepared : size_prepared fs m ≡ size_filled fs m = rw z refl in
      let out : write (take 8 head) m.socket ≡ wrote 8 (after_write m.socket outs head) =
        ap (λ b. write b m.socket) (take_all 8 head (omega (arith, eight)))
        ∙ write_whole head m.socket n outs o (omega (arith, eight))
        ∙ ap (λ j. wrote j (after_write m.socket outs head)) eight in
      ap (write_size fs) prepared ∙ rw (out, write_size) refl

  -- GET at the server, up to the last byte: what three events send where the socket takes the line, the
  -- size, and a buffer with each of the `k` writes behind them.
  get-IsSent :
      (m : Machine Disk) (n1 n2 k : ℕ) (outs : List Send) (d : Disk)
      → m.client.request_verb ≡ get
      → m.socket.outcomes ≡ accepts n1 ∷ accepts n2 ∷ outs
      → 3 ≤ n1
      → size_len ≤ n2
      → HasRoom k outs
      → length (content d) ≤ k * buffer_size
      → open_read (filepath m) m.disk ≡ (some f, d)
      → fstat_size f d ≡ some (length (content d))
      → let m' = handle_write_event fs (handle_write_event fs (start_send_get fs m)) in
        (m'.freed ≡ true)
        × (m'.socket.sent
            ≡ m.socket.sent
              ++ (codes "OK\n" ++ (to_bytes size_len (length (content d)) ++ content d)))
  unfolding handle_write_event write_event
  get-IsSent m n1 n2 k outs d v o le1 le2 room small opened size =
      let a = announced m (accepts n2 ∷ outs) d in
      let b = sized a outs in
      let at : handle_write_event fs (start_send_get fs m) ≡ b =
        ap (handle_write_event fs)
          (start_send_get-announced m n1 (accepts n2 ∷ outs) d v o le1 opened size)
        ∙ send_get_size-sized a n2 outs refl refl le2 in
      let out = send_get_data-IsSent fs f file k b refl room refl (omega arith) (omega arith) in
      (
        ap (λ q. (handle_write_event fs q).freed) at ∙ out.closed,
        ap (λ q. (handle_write_event fs q).socket.sent) at
            ∙ out.all_sent
            ∙ append_assoc (m.socket.sent ++ codes "OK\n") (to_bytes size_len (length (content d)))
                (content d)
            ∙ append_assoc m.socket.sent (codes "OK\n") _,
      )

  -- GET from end to end, for a name without zero bytes and newlines that fits the request. The
  -- client's request arrives at a new connection of the server, cut into any pieces; the server can
  -- open the file and read it, it has fewer than 2 ^ 64 bytes, and the server's socket takes the line,
  -- the size and a buffer with each write behind. Then a read event and two write events close the
  -- connection; and when what is sent arrives at the client, cut into any pieces, with anything behind
  -- it, the client's file, created empty, comes to hold exactly the bytes of the server's file.
  pub get_file-same :
      (files : LocalFiles) (g : ℕ) (local_file : Grows files g) (fd n1 n2 k : ℕ)
      (name text local more : List ℕ) (m : Machine Disk) (s : Session files.Disk) (outs : List Send)
      (d : Disk) (e : files.Disk)
      → NoZero name
      → NoNewline name
      → length (command get) + length name < max_header_len - 1
      → request_text (command get) name ≡ some text
      → m.client ≡ client_create fd
      → stream m.socket.incoming ≡ text
      → m.socket.sent ≡ []
      → m.socket.outcomes ≡ accepts n1 ∷ accepts n2 ∷ outs
      → 3 ≤ n1
      → size_len ≤ n2
      → HasRoom k outs
      → length (content d) ≤ k * buffer_size
      → length (content d) < 256 ^ size_len
      → open_read (take 1023 (m.temp_dir ++ b'/' ∷ take 255 name)) m.disk ≡ (some f, d)
      → fstat_size f d ≡ some (length (content d))
      → files.create local s.disk ≡ (some g, e)
      → local_file.content e ≡ []
      → stream s.socket.incoming ≡ (three_events fs m).socket.sent ++ more
      → ((three_events fs m).freed ≡ true)
        × (local_file.content (read_answer (receive_file files local) s).disk ≡ content d)
  unfolding client_create start_request
  get_file-same files g local_file fd n1 n2 k name text local more m s outs d e z nn lt t new
        arrives s0 o le1 le2 room small short opened size created empty back =
      let (rest, out, left) =
        request_understood fs m get name [] text tt (ap (λ q. q.state) new)
          (ap (λ q. q.header_buf) new) z nn lt t (arrives ∙ sym (append-nil text)) in
      let m1 = set_filename name (set_verb get (headed fs m text rest)) in
      let (closed, sent) = get-IsSent m1 n1 n2 k outs d refl o le1 le2 room small opened size in
      let body : List ℕ = to_bytes size_len (length (content d)) ++ content d in
      let answer : stream s.socket.incoming ≡ codes "OK\n" ++ (body ++ more) =
        back
        ∙ ap (λ q. (handle_write_event fs (handle_write_event fs q)).socket.sent ++ more) out
        ∙ ap (λ q. q ++ more) sent
        ∙ ap (λ q. (q ++ (codes "OK\n" ++ body)) ++ more) s0 in
      let (behind, read, is) = read_answer-ok (receive_file files local) s (body ++ more) answer in
      (
        ap (λ q. (handle_write_event fs (handle_write_event fs q)).freed) out ∙ closed,
        ap (λ q. local_file.content q.disk) read
            ∙ receive_file_whole files g local_file local (content d) more e (with_rest behind s)
                created empty short
                (is ∙ append_assoc (to_bytes size_len (length (content d))) (content d) more),
      )
