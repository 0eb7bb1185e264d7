-- ===== src/Sessions/Paced.antt =====
-- GET and LIST from end to end, whatever the pace at which the server's socket takes the answer.
use file_system_server.Base.{
  ℕ, ◌+◌, ◌-◌, ◌^◌, ◌≤◌, ◌<◌, ◌≡◌, refl, sym, subst, ap, ◌∙◌, true, false, List, [], ◌∷◌, ◌++◌,
  none, some, arith, length, length-append, length-to_bytes, take, to_bytes, codes, append_assoc,
  append-nil, take_all, str_eq, split_at,
}
use file_system_server.Common.{get, list}
use file_system_server.Common.ReadLine.{NoNewline}
use file_system_server.Os.{Send, stream, FileSystem, IsTaking}
use file_system_server.Collections.Vector.Laws.{Holds}
use file_system_server.Server.{Machine, client_create, max_header_len, size_len, filepath}
use file_system_server.Server.Header.{
  set_filename, set_verb, handle_read_event, start_request, split_line, parse_verb,
}
use file_system_server.Server.Header.Line.{NoZero, headed, handle_read_event_line}
use file_system_server.Server.Listing.{build_list_buffer}
use file_system_server.Server.Listing.Contents.{joined, build_list_buffer_lem}
use file_system_server.Server.Response.{ok, prepare_and_send_response}
use file_system_server.Server.Get.{start_send_get, size_known, download_opened}
use file_system_server.Server.Get.Download.{Readable}
use file_system_server.Server.Answer.{list_text, IsFilled}
use file_system_server.Server.Answer.Rounds.{IsSteady, write_events}
use file_system_server.Server.Answer.First.{HasList, response-IsDelivered}
use file_system_server.Client.{LocalFiles, Session, request_text, command, with_rest}
use file_system_server.Client.Answer.{read_answer}
use file_system_server.Client.Handlers.{receive_file, receive_list}
use file_system_server.Client.Download.{Grows, receive_file_whole}
use file_system_server.Client.Requests.{request_understood}
use file_system_server.Client.Terminal.{terminal, terminal-shows}
use file_system_server.Sessions.Get.{read_answer-ok}
use file_system_server.Sessions.Listing.{listing, terminal-listing, receive_list-output}

-- The server's side: the event with the request, and the write events behind it.
abbrev pub answered : (fs : FileSystem) → List (List Send) → Machine fs.Disk → Machine fs.Disk
answered fs os m = write_events fs os (handle_read_event fs m)

module _ (fs : FileSystem) (f : ℕ) (file : Readable fs f) where
  open fs use {Disk, open_read, fstat_size}
  open file use {content, reads}

  -- The connection whose file is open.
  abbrev opened_at : Machine Disk → Disk → Machine Disk
  opened_at m d = record m {
    disk = d;
    client = record m.client {
      file_fd = some f;
      file_size = length (content d);
      bytes_transferred = 0;
    };
  }

  start_send_get-opened :
      (m : Machine Disk) (d : Disk)
      → open_read (filepath m) m.disk ≡ (some f, d)
      → fstat_size f d ≡ some (length (content d))
      → start_send_get fs m ≡ prepare_and_send_response fs ok (opened_at m d)
  unfolding start_send_get
  start_send_get-opened m d opened size =
      ap (λ r. download_opened fs r m) opened
      ∙ ap (λ r. size_known fs f r (record m { disk = d })) size

  get-IsDelivered :
      (os : List (List Send)) (m : Machine Disk) (d : Disk)
      → m.freed ≡ false
      → IsTaking m.socket.outcomes
      → 0 < length m.socket.outcomes
      → IsSteady os
      → 3 + (size_len + length (content d)) ≤ length os
      → open_read (filepath m) m.disk ≡ (some f, d)
      → fstat_size f d ≡ some (length (content d))
      → let out = write_events fs os (start_send_get fs (set_verb get m)) in
        (out.freed ≡ true)
        × (out.socket.sent
            ≡ m.socket.sent
              ++ (codes "OK\n" ++ (to_bytes size_len (length (content d)) ++ content d)))
  get-IsDelivered os m d live t pos steady le opened size =
      let m1 = opened_at (set_verb get m) d in
      let at = start_send_get-opened (set_verb get m) d opened size in
      let sizes : length (to_bytes size_len (length (content d)) ++ content d)
          ≡ size_len + length (content d) =
        length-append (to_bytes size_len (length (content d))) (content d)
        ∙ ap (λ k. k + length (content d)) (length-to_bytes size_len (length (content d))) in
      let (closed, sent) =
        response-IsDelivered fs content ok os m1 live (omega arith)
          (f, refl, reads, refl, omega arith) tt t pos steady (omega (arith, sizes)) in
      (
        ap (λ q. (write_events fs os q).freed) at ∙ closed,
        ap (λ q. (write_events fs os q).socket.sent) at ∙ sent,
      )

  -- GET from end to end at any pace, for a name without zero bytes and newlines that fits the request.
  -- The client's request arrives at a new connection of the server, cut into any pieces; the server
  -- can open the file and read it, and it has fewer than 2 ^ 64 bytes; when the answer is begun, and
  -- at each write event behind, the server's socket has room for a write, and takes a byte at least with each.
  -- Then after as many events as the answer has bytes the connection is closed; and when what is sent
  -- arrives at the client, cut into any pieces, with anything behind it, the client's file, created
  -- empty, comes to hold exactly the bytes of the server's file.
  pub get_file_paced-same :
      (files : LocalFiles) (g : ℕ) (local_file : Grows files g) (fd : ℕ)
      (name text local more : List ℕ) (m : Machine Disk) (s : Session files.Disk)
      (os : List (List Send)) (d : Disk) (e : files.Disk)
      → NoZero name
      → NoNewline name
      → length (command get) + length name < max_header_len - 1
      → request_text (command get) name ≡ some text
      → m.client ≡ client_create fd
      → m.freed ≡ false
      → stream m.socket.incoming ≡ text
      → m.socket.sent ≡ []
      → IsTaking m.socket.outcomes
      → 0 < length m.socket.outcomes
      → IsSteady os
      → 3 + (size_len + length (content d)) ≤ length os
      → length (content d) < 256 ^ size_len
      → open_read (take 1023 (m.temp_dir ++ b'/' ∷ take 255 name)) m.disk ≡ (some f, d)
      → fstat_size f d ≡ some (length (content d))
      → files.create local s.disk ≡ (some g, e)
      → local_file.content e ≡ []
      → stream s.socket.incoming ≡ (answered fs os m).socket.sent ++ more
      → ((answered fs os m).freed ≡ true)
        × (local_file.content (read_answer (receive_file files local) s).disk ≡ content d)
  unfolding client_create start_request
  get_file_paced-same files g local_file fd name text local more m s os d e z nn lt t new live
        arrives s0 taking pos steady enough short opened size created empty back =
      let (rest, out, left) =
        request_understood fs m get name [] text tt (ap (λ q. q.state) new)
          (ap (λ q. q.header_buf) new) z nn lt t (arrives ∙ sym (append-nil text)) in
      let (closed, sent) =
        get-IsDelivered os (set_filename name (headed fs m text rest)) d live taking pos steady
          enough opened size in
      let body : List ℕ = to_bytes size_len (length (content d)) ++ content d in
      let answer : stream s.socket.incoming ≡ codes "OK\n" ++ (body ++ more) =
        back
        ∙ ap (λ q. (write_events fs os q).socket.sent ++ more) out
        ∙ ap (λ q. q ++ more) sent
        ∙ ap (λ q. (q ++ (codes "OK\n" ++ body)) ++ more) s0 in
      let (behind, read, is) = read_answer-ok (receive_file files local) s (body ++ more) answer in
      (
        ap (λ q. (write_events fs os q).freed) out ∙ closed,
        ap (λ q. local_file.content q.disk) read
            ∙ receive_file_whole files g local_file local (content d) more e (with_rest behind s)
                created empty short
                (is ∙ append_assoc (to_bytes size_len (length (content d))) (content d) more),
      )

module _ (fs : FileSystem) where
  open fs use {Disk}

  list-IsDelivered :
      (os : List (List Send)) (m : Machine Disk) (xs : List (List ℕ))
      → Holds m.server_files xs
      → m.memory ≡ true
      → m.freed ≡ false
      → IsTaking m.socket.outcomes
      → 0 < length m.socket.outcomes
      → IsSteady os
      → 3 + (size_len + length (joined xs)) ≤ length os
      → let out = write_events fs os (start_request fs list none m) in
        (out.freed ≡ true)
        × (out.socket.sent
            ≡ m.socket.sent
              ++ (codes "OK\n" ++ (to_bytes size_len (length (joined xs)) ++ joined xs)))
  unfolding start_request
  list-IsDelivered os m xs h room live t pos steady le =
      let nothing : Disk → List ℕ = λ d. [] in
      let buffer : List ℕ = to_bytes size_len (length (joined xs)) ++ joined xs in
      let len : ℕ = size_len + length (joined xs) in
      let is : build_list_buffer m.memory m.server_files ≡ some (buffer, len) =
        rw room (build_list_buffer_lem m.server_files xs h) in
      let size : length buffer ≡ len = omega (
        arith,
        length-append (to_bytes size_len (length (joined xs))) (joined xs),
        length-to_bytes size_len (length (joined xs)),
      ) in
      let whole : list_text (build_list_buffer m.memory m.server_files) ≡ buffer =
        ap list_text is ∙ take_all (len - 0) buffer (omega (arith, size)) in
      let (closed, sent) =
        response-IsDelivered fs nothing ok os (set_verb list m) live (omega arith)
          (subst IsFilled (sym is) (omega arith, omega (arith, size)))
          (subst (HasList ok list) (sym is) tt) t pos steady
          (omega (arith, ap length whole, size)) in
      (closed, sent ∙ ap (λ z. m.socket.sent ++ (codes "OK\n" ++ z)) whole)

-- LIST from end to end at any pace. The client's request arrives at a new connection of the server, cut
-- into any pieces; the server has memory and a list of names that hold fewer than 2 ^ 64 bytes; when
-- the answer is begun, and at each write event behind, the server's socket has room for a write, and takes a byte
-- at least with each. Then after as many events as the answer has bytes the connection is closed; and
-- when what is sent arrives at the client, cut into any pieces, the client, with memory, adds to its
-- standard output exactly the names with a newline between each two.
pub list_names_paced-printed :
    (files : LocalFiles) (fs : FileSystem) (fd : ℕ) (xs : List (List ℕ)) (m : Machine fs.Disk)
    (s : Session files.Disk) (os : List (List Send))
    → m.client ≡ client_create fd
    → m.freed ≡ false
    → stream m.socket.incoming ≡ codes "LIST\n"
    → m.socket.sent ≡ []
    → Holds m.server_files xs
    → m.memory ≡ true
    → IsTaking m.socket.outcomes
    → 0 < length m.socket.outcomes
    → IsSteady os
    → 3 + (size_len + length (joined xs)) ≤ length os
    → length (joined xs) < 256 ^ size_len
    → s.memory ≡ true
    → stream s.socket.incoming ≡ (answered fs os m).socket.sent
    → ((answered fs os m).freed ≡ true)
      × (terminal (read_answer (receive_list files) s).output ≡ terminal s.output ++ joined xs)
unfolding client_create split_line split_at parse_verb str_eq
list_names_paced-printed files fs fd xs m s os new live arrives s0 h room t pos steady enough small
      mem back =
    let (rest, out, left) =
      handle_read_event_line fs m (codes "LIST") [] (ap (λ q. q.state) new)
        (ap (λ q. q.header_buf) new) (refl, (refl, (refl, (refl, tt))))
        (refl, (refl, (refl, (refl, tt)))) (omega arith) arrives in
    let m1 = headed fs m (codes "LIST\n") rest in
    let (closed, sent) = list-IsDelivered fs os m1 xs h room live t pos steady enough in
    let body : List ℕ = to_bytes size_len (length (joined xs)) ++ joined xs in
    let answer : stream s.socket.incoming ≡ codes "OK\n" ++ body =
      back
      ∙ ap (λ q. (write_events fs os q).socket.sent) out
      ∙ sent
      ∙ ap (λ q. q ++ (codes "OK\n" ++ body)) s0 in
    let (behind, read, is) = read_answer-ok (receive_list files) s body answer in
    (
      ap (λ q. (write_events fs os q).freed) out ∙ closed,
      terminal-shows _ s.output (listing (joined xs)) (joined xs)
          (ap (λ q. q.output) read
            ∙ receive_list-output files (with_rest behind s) (joined xs) mem small is)
          (terminal-listing (joined xs)),
    )
