-- ===== src/Sessions/Listing.antt =====
-- LIST: what the server sends of its names, and what `handle_list` of client.c prints.
use file_system_server.Base.{
  ℕ, suc, ◌+◌, ◌-◌, ◌^◌, ◌≤◌, ◌<◌, ◌≡◌, refl, sym, ap, ◌∙◌, true, false, List, [], ◌∷◌, ◌++◌, none,
  some, arith, length, length-append, take, drop, take-append, drop-append, to_bytes,
  from_bytes-to_bytes, length-to_bytes, codes, append_assoc, append-nil, str_eq, take_all, drop_all,
  if◌then◌else◌, ◌==◌, ==_refl, ==_iff, split_at,
}
use file_system_server.Common.{list}
use file_system_server.Common.ReadAll.{read_all_from_socket, read_all_from_socket_enough}
use file_system_server.Os.{
  Send, Recv, stream, accepts, FileSystem, write, wrote, after_write, write_whole, read_from_cases,
  arrived, resumed, ended, lost, waits,
}
use file_system_server.Collections.Vector.Laws.{Holds}
use file_system_server.Server.{Machine, client_create, size_len, close_and_cleanup}
use file_system_server.Server.Header.{
  set_verb, handle_read_event, start_request, split_line, parse_verb,
}
use file_system_server.Server.Header.Line.{headed, handle_read_event_line}
use file_system_server.Server.Events.{handle_write_event, write_event}
use file_system_server.Server.Listing.{build_list_buffer}
use file_system_server.Server.Listing.Contents.{joined, build_list_buffer_lem}
use file_system_server.Server.Response.{
  ok, finish, ok_sent, response_sent, start_send_list, list_ready,
}
use file_system_server.Server.Response.Delivery.{responded, prepare_and_send_response_whole}
use file_system_server.Server.Get.{list_left, send_list_data_handler}
use file_system_server.Client.{
  LocalFiles, Session, Output, standard_output, out_of_memory, too_little_data, with_rest, print,
}
use file_system_server.Client.Terminal.{terminal, terminal-shows}
use file_system_server.Client.Answer.{read_answer}
use file_system_server.Client.Handlers.{
  word, full_word, after_extra, extra_byte, list_read, list_known, receive_list,
}
use file_system_server.Sessions.Get.{read_answer-ok}

-- What is printed of a list: nothing of an empty one.
abbrev pub listing : List ℕ → List Output
listing [] = []
listing (b ∷ bs) = standard_output (b ∷ bs) ∷ []

pub terminal-listing : (bs : List ℕ) → terminal (listing bs) ≡ bs
unfolding terminal
terminal-listing [] = refl
terminal-listing (b ∷ bs) = append-nil (b ∷ bs)

module _ (files : LocalFiles) where
  open files use {Disk}

  extra_byte-output :
      (s : Session Disk) → stream s.socket.incoming ≡ [] → (extra_byte s).output ≡ s.output
  unfolding extra_byte after_extra
  extra_byte-output s e = elim (read_from_cases 1 s.socket.incoming (omega arith)) [
    | arrived b bs rest r x le less same ↦ absurd (omega (arith, ap length (x ∙ e)))
    | resumed rest r x less same ↦ rw (extra_byte, r, after_extra) refl
    | ended r x y ↦ rw (extra_byte, r, after_extra) refl
    | lost rest r x y ↦ rw (extra_byte, r, after_extra) refl
    | waits r x ↦ rw (extra_byte, r, after_extra) refl
  ]

  list_known-output :
      (s : Session Disk) (bytes : List ℕ)
      → s.memory ≡ true
      → stream s.socket.incoming ≡ bytes
      → (list_known files (some (length bytes)) s).output ≡ s.output ++ listing bytes
  unfolding extra_byte
  list_known-output s [] m e = sym (append-nil s.output)
  list_known-output s (b ∷ bs) m e =
      let n : ℕ = suc (length bs) in
      let ss : List ℕ = stream s.socket.incoming in
      let (read, left, ends) =
        read_all_from_socket_enough n s.socket.incoming (omega (arith, ap length e)) in
      let all : take n ss ≡ b ∷ bs = ap (take n) e ∙ take_all n (b ∷ bs) (omega arith) in
      let rest : List Recv = (read_all_from_socket n s.socket.incoming).1 in
      let nothing : stream rest ≡ [] = left ∙ ap (drop n) e ∙ drop_all n (b ∷ bs) (omega arith) in
      let known : (read_all_from_socket n s.socket.incoming).0 ≡ some (b ∷ bs) =
        read ∙ ap some all in
      let s' : Session Disk = with_rest rest s in
      let not_empty : (n == 0) ≡ false = ground arith in
      ap
        (λ z.
          (if z
            then s
            else if s.memory
            then list_read files n (read_all_from_socket n s.socket.incoming).0 s'
            else print out_of_memory s).output)
        not_empty
      ∙ ap
          (λ z.
            (if z
              then list_read files n (read_all_from_socket n s.socket.incoming).0 s'
              else print out_of_memory s).output)
          m
      ∙ ap (λ o. (list_read files n o s').output) known
      ∙ ap
          (λ z.
            (if z
              then extra_byte (print (standard_output (b ∷ bs)) s')
              else print too_little_data s').output)
          (==_refl n)
      ∙ extra_byte-output (print (standard_output (b ∷ bs)) s') nothing

  -- The list behind `OK`.
  pub receive_list-output :
      (s : Session Disk) (bytes : List ℕ)
      → s.memory ≡ true
      → length bytes < 256 ^ size_len
      → stream s.socket.incoming ≡ to_bytes size_len (length bytes) ++ bytes
      → (receive_list files s).output ≡ s.output ++ listing bytes
  unfolding receive_list
  receive_list-output s bytes m small e =
      let head : List ℕ = to_bytes size_len (length bytes) in
      let eight : length head ≡ word = length-to_bytes size_len (length bytes) in
      let (read, left, ends) =
        read_all_from_socket_enough word s.socket.incoming
          (omega (arith, ap length e, length-append head bytes)) in
      let rest : List Recv = (read_all_from_socket word s.socket.incoming).1 in
      let front : take word (stream s.socket.incoming) ≡ head =
        ap (take word) e ∙ ap (λ j. take j (head ++ bytes)) (sym eight) ∙ take-append head bytes in
      let behind : stream rest ≡ bytes =
        left
        ∙ ap (drop word) e
        ∙ ap (λ j. drop j (head ++ bytes)) (sym eight)
        ∙ drop-append head bytes in
      let known : full_word (some head) ≡ some (length bytes) =
        rw eight (ap some (from_bytes-to_bytes size_len (length bytes) small)) in
      ap (λ o. (list_known files (full_word o) (with_rest rest s)).output) (read ∙ ap some front)
      ∙ ap (λ o. (list_known files o (with_rest rest s)).output) known
      ∙ list_known-output (with_rest rest s) bytes m behind

module _ (fs : FileSystem) where
  open fs use {Disk}

  -- The list at the server: what two events send where the socket takes the line, and then the list.
  list-IsSent :
      (m : Machine Disk) (xs : List (List ℕ)) (n1 n2 : ℕ) (outs : List Send)
      → Holds m.server_files xs
      → m.memory ≡ true
      → m.socket.outcomes ≡ accepts n1 ∷ accepts n2 ∷ outs
      → 3 ≤ n1
      → size_len + length (joined xs) ≤ n2
      → let m' = handle_write_event fs (start_request fs list none m) in
        (m'.freed ≡ true)
        × (m'.socket.sent
            ≡ m.socket.sent
              ++ (codes "OK\n" ++ (to_bytes size_len (length (joined xs)) ++ joined xs)))
  unfolding handle_write_event write_event start_request response_sent ok_sent start_send_list
      send_list_data_handler finish close_and_cleanup
  list-IsSent m xs n1 n2 outs h room o le1 le2 =
      let buffer : List ℕ = to_bytes size_len (length (joined xs)) ++ joined xs in
      let len : ℕ = size_len + length (joined xs) in
      let built : build_list_buffer m.memory m.server_files ≡ some (buffer, len) =
        rw room (build_list_buffer_lem m.server_files xs h) in
      let size : length buffer ≡ len = omega (
        arith,
        length-append (to_bytes size_len (length (joined xs))) (joined xs),
        length-to_bytes size_len (length (joined xs)),
      ) in
      let m1 : Machine Disk =
        list_ready fs buffer len (responded fs ok (accepts n2 ∷ outs) (set_verb list m)) in
      let at : start_request fs list none m ≡ m1 =
        prepare_and_send_response_whole fs ok (set_verb list m) n1 (accepts n2 ∷ outs) (omega arith)
          o le1
        ∙ (rw (start_send_list, built) refl) in
      let whole : list_left fs m1.client ≡ buffer =
        take_all (len - 0) buffer (omega (arith, size)) in
      let out : write (list_left fs m1.client) m1.socket
          ≡ wrote len (after_write m1.socket outs buffer) =
        ap (λ b. write b m1.socket) whole
        ∙ write_whole buffer m1.socket n2 outs refl (omega (arith, size))
        ∙ ap (λ j. wrote j (after_write m1.socket outs buffer)) size in
      let complete : (0 + len == len) ≡ true = (==_iff (0 + len) len).1 (omega arith) in
      rw (at, out, send_list_data_handler, complete)
        (refl, append_assoc m.socket.sent (codes "OK\n") buffer)

-- LIST from end to end. The client's request arrives at a new connection of the server, cut into any pieces;
-- the server has memory and a list of names that hold fewer than 2 ^ 64 bytes, and its socket takes the line
-- and then the list. Then a read event and a write event close the connection; and when what is sent
-- arrives at the client, cut into any pieces, the client, with memory, adds to its standard output exactly
-- the names with a newline between each two.
pub list_names-printed :
    (files : LocalFiles) (fs : FileSystem) (fd n1 n2 : ℕ) (xs : List (List ℕ)) (m : Machine fs.Disk)
    (s : Session files.Disk) (outs : List Send)
    → m.client ≡ client_create fd
    → stream m.socket.incoming ≡ codes "LIST\n"
    → m.socket.sent ≡ []
    → Holds m.server_files xs
    → m.memory ≡ true
    → m.socket.outcomes ≡ accepts n1 ∷ accepts n2 ∷ outs
    → 3 ≤ n1
    → size_len + length (joined xs) ≤ n2
    → length (joined xs) < 256 ^ size_len
    → s.memory ≡ true
    → stream s.socket.incoming ≡ (handle_write_event fs (handle_read_event fs m)).socket.sent
    → ((handle_write_event fs (handle_read_event fs m)).freed ≡ true)
      × (terminal (read_answer (receive_list files) s).output ≡ terminal s.output ++ joined xs)
unfolding client_create split_line split_at parse_verb str_eq
list_names-printed files fs fd n1 n2 xs m s outs new arrives s0 h room o le1 le2 small mem back =
    let (rest, out, left) =
      handle_read_event_line fs m (codes "LIST") [] (ap (λ q. q.state) new)
        (ap (λ q. q.header_buf) new) (refl, (refl, (refl, (refl, tt))))
        (refl, (refl, (refl, (refl, tt)))) (omega arith) arrives in
    let m1 = headed fs m (codes "LIST\n") rest in
    let (closed, sent) = list-IsSent fs m1 xs n1 n2 outs h room o le1 le2 in
    let body : List ℕ = to_bytes size_len (length (joined xs)) ++ joined xs in
    let answer : stream s.socket.incoming ≡ codes "OK\n" ++ body =
      back
      ∙ ap (λ q. (handle_write_event fs q).socket.sent) out
      ∙ sent
      ∙ ap (λ q. q ++ (codes "OK\n" ++ body)) s0 in
    let (behind, read, is) = read_answer-ok (receive_list files) s body answer in
    (
      ap (λ q. (handle_write_event fs q).freed) out ∙ closed,
      terminal-shows _ s.output (listing (joined xs)) (joined xs)
          (ap (λ q. q.output) read
            ∙ receive_list-output files (with_rest behind s) (joined xs) mem small is)
          (terminal-listing (joined xs)),
    )
