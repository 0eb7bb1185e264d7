-- ===== src/Sessions/Delete.antt =====
-- DELETE: what the server does with a name, and what `handle_delete` of client.c prints.
use file_system_server.Base.{
  none-some, ℕ, ◌+◌, ◌-◌, ◌≤◌, ◌<◌, ◌≡◌, refl, sym, subst, ap, ◌∙◌, true, List, [], ◌∷◌, ◌++◌,
  Option, none, some, arith, length, take, codes, newline, append_assoc, append-nil, str_eq,
  c_string, Bool-cases, Option-cases, inl, inr,
}
use file_system_server.Common.{delete}
use file_system_server.Common.ReadLine.{NoNewline, read_line_from_socket, read_line_from_socket_lem}
use file_system_server.Format.{err_no_such_file}
use file_system_server.Os.{Send, stream, accepts, FileSystem}
use file_system_server.Server.{Machine, client_create, max_header_len}
use file_system_server.Server.Header.{set_filename, set_verb, handle_read_event, start_request}
use file_system_server.Server.Header.Line.{NoZero, headed}
use file_system_server.Server.Names.Laws.{Stores, position, removed}
use file_system_server.Server.Response.{ok, error, status_text}
use file_system_server.Server.Delete.Outcome.{delete_request_stored, delete_request_missing}
use file_system_server.Client.{
  Session, LocalFiles, success, error_message, request_text, command, with_rest,
}
use file_system_server.Client.Terminal.{terminal, terminal-shows}
use file_system_server.Client.Answer.{
  line_size, strip_newline, error_answer, status_answer, read_answer,
}
use file_system_server.Client.Handlers.{put_answer}
use file_system_server.Client.Requests.{request_understood}
use file_system_server.Sessions.Get.{read_answer-ok}

strip_newline-append : (line : List ℕ) → strip_newline (line ++ newline ∷ []) ≡ line
unfolding strip_newline
strip_newline-append [] = refl
strip_newline-append (c ∷ []) = refl
strip_newline-append (c ∷ d ∷ cs) = ap (λ z. c ∷ z) (strip_newline-append (d ∷ cs))

c_string-NoZero : (line : List ℕ) → NoZero line → c_string line ≡ line
unfolding c_string
c_string-NoZero [] z = refl
c_string-NoZero (c ∷ cs) z = rw (z.0) (ap (λ t. c ∷ t) (c_string-NoZero cs z.1))

-- The message behind the line `ERROR`, which the client reads up to its first newline.
error_answer-output :
    {Disk : Type 0} (s : Session Disk) (c : ℕ) (cs more : List ℕ)
    → NoZero (c ∷ cs)
    → NoNewline (c ∷ cs)
    → length (c ∷ cs) < 1023
    → stream s.socket.incoming ≡ (c ∷ cs) ++ newline ∷ more
    → (error_answer s).output ≡ s.output ++ error_message (c ∷ cs) ∷ []
unfolding error_answer
error_answer-output s c cs more z n lt e =
    let line =
      read_line_from_socket_lem line_size (c ∷ cs) more s.socket.incoming n e (omega arith) in
    rw (error_answer, line.got_line)
      (ap (λ t. s.output ++ error_message (c_string t) ∷ []) (strip_newline-append (c ∷ cs))
        ∙ ap (λ t. s.output ++ error_message t ∷ []) (c_string-NoZero (c ∷ cs) z))

-- An error of the server whose message is a line.
pub read_answer-error :
    {Disk : Type 0} (on_ok : Session Disk → Session Disk) (s : Session Disk) (c : ℕ) (cs : List ℕ)
    → NoZero (c ∷ cs)
    → NoNewline (c ∷ cs)
    → length (c ∷ cs) < 1023
    → stream s.socket.incoming ≡ status_text (error ((c ∷ cs) ++ newline ∷ []))
    → (read_answer on_ok s).output ≡ s.output ++ error_message (c ∷ cs) ∷ []
unfolding read_answer status_answer c_string str_eq
read_answer-error on_ok s c cs z n lt e =
    let r = read_line_from_socket line_size s.socket.incoming in
    let line =
      read_line_from_socket_lem line_size (codes "ERROR")
        (((c ∷ cs) ++ newline ∷ []) ++ newline ∷ []) s.socket.incoming
        (refl, (refl, (refl, (refl, (refl, tt))))) e (omega arith) in
    rw (read_answer, line.got_line)
      (error_answer-output (with_rest r.1 s) c cs (newline ∷ []) z n lt
        (line.left ∙ append_assoc (c ∷ cs) (newline ∷ []) (newline ∷ [])))

no_such_file-NoZero : NoZero (codes "No such file")
no_such_file-NoZero = (
  refl,
  (refl, (refl, (refl, (refl, (refl, (refl, (refl, (refl, (refl, (refl, (refl, tt))))))))))),
)

no_such_file-NoNewline : NoNewline (codes "No such file")
no_such_file-NoNewline = (
  refl,
  (refl, (refl, (refl, (refl, (refl, (refl, (refl, (refl, (refl, (refl, (refl, tt))))))))))),
)

-- What the client shows, for the place of the name in the server's list.
abbrev pub told : Option ℕ → List ℕ
told none = codes "No such file\n"
told (some i) = codes "DELETE/PUT successful\n"

removed_missing :
    (name : List ℕ) (xs : List (List ℕ)) → position name xs ≡ none → removed name xs ≡ xs
removed_missing name [] p = refl
removed_missing name (x ∷ xs) p = elim (Bool-cases (str_eq x name)) [
  | inl same ↦ absurd (none-some (sym (rw same at p)))
  | inr other ↦ elim (Option-cases (position name xs)) [
    | inl gone ↦ rw other (ap (λ z. x ∷ z) (removed_missing name xs gone))
    | inr (i, found) ↦ absurd (none-some (sym (rw (other, found) at p)))
  ]
]

module _ (fs : FileSystem) where
  open fs use {Disk, unlink}

  -- DELETE from end to end, for a name without zero bytes and newlines that fits the request; of a
  -- longer one the server takes the first 255 bytes, here called the prefix. The client's request
  -- arrives at a new connection of the server, cut into any pieces; the list has each name once,
  -- `unlink` of the path with the prefix succeeds, and the socket takes the answer at once. Then one
  -- read event closes the connection, and the list is the old one less the prefix; and when the answer
  -- arrives at the client, cut into any pieces, the client adds to its standard output the line of its
  -- success where the prefix was in the list, also if the name is longer, and the line that there is no
  -- such file where the prefix was not in the list.
  pub delete_file-told :
      (files : LocalFiles) (fd n : ℕ) (name text : List ℕ) (xs : List (List ℕ)) (place : Option ℕ)
      (m : Machine Disk) (s : Session files.Disk) (outs : List Send)
      → NoZero name
      → NoNewline name
      → length (command delete) + length name < max_header_len - 1
      → request_text (command delete) name ≡ some text
      → m.client ≡ client_create fd
      → stream m.socket.incoming ≡ text
      → m.socket.sent ≡ []
      → Stores m.server_files xs
      → position (take 255 name) xs ≡ place
      → (unlink (take 1023 (m.temp_dir ++ b'/' ∷ take 255 name)) m.disk).0 ≡ true
      → m.socket.outcomes ≡ accepts n ∷ outs
      → length (status_text (error err_no_such_file)) ≤ n
      → stream s.socket.incoming ≡ (handle_read_event fs m).socket.sent
      → ((handle_read_event fs m).freed ≡ true)
        × Stores (handle_read_event fs m).server_files (removed (take 255 name) xs)
        × (terminal (read_answer (put_answer files) s).output ≡ terminal s.output ++ told place)
  unfolding client_create start_request terminal
  delete_file-told files fd n name text xs none m s outs z nn lt t new arrives s0 h p u o le back =
      let (rest, out, left) =
        request_understood fs m delete name [] text tt (ap (λ q. q.state) new)
          (ap (λ q. q.header_buf) new) z nn lt t (arrives ∙ sym (append-nil text)) in
      let m1 = set_filename name (set_verb delete (headed fs m text rest)) in
      let (closed, sent, disk, names) = delete_request_missing fs m1 xs n outs h p o le in
      let answer : stream s.socket.incoming ≡ status_text (error err_no_such_file) =
        back
        ∙ ap (λ q. q.socket.sent) out
        ∙ sent
        ∙ ap (λ q. q ++ status_text (error err_no_such_file)) s0 in
      (
        ap (λ q. q.freed) out ∙ closed,
        subst (λ q. Stores q (removed (take 255 name) xs))
            (sym (ap (λ q. q.server_files) out ∙ names))
            (subst (Stores m.server_files) (sym (removed_missing (take 255 name) xs p)) h),
        terminal-shows _ s.output (error_message (codes "No such file") ∷ []) _
            (read_answer-error (put_answer files) s 78 (codes "o such file") no_such_file-NoZero
              no_such_file-NoNewline (omega arith) answer)
            refl,
      )
  delete_file-told files fd n name text xs (some i) m s outs z nn lt t new arrives s0 h p u o le
        back =
      let (rest, out, left) =
        request_understood fs m delete name [] text tt (ap (λ q. q.state) new)
          (ap (λ q. q.header_buf) new) z nn lt t (arrives ∙ sym (append-nil text)) in
      let m1 = set_filename name (set_verb delete (headed fs m text rest)) in
      let (closed, sent, disk, names) =
        delete_request_stored fs m1 xs i n outs h p refl (ap (λ q. q.file_fd) new) u o
          (omega (arith, le)) in
      let answer : stream s.socket.incoming ≡ codes "OK\n" ++ [] =
        back ∙ ap (λ q. q.socket.sent) out ∙ sent ∙ ap (λ q. q ++ status_text ok) s0 in
      let (behind, read, is) = read_answer-ok (put_answer files) s [] answer in
      (
        ap (λ q. q.freed) out ∙ closed,
        subst (λ q. Stores q (removed (take 255 name) xs)) (sym (ap (λ q. q.server_files) out))
            names,
        terminal-shows _ s.output (success ∷ []) _ (ap (λ q. q.output) read) refl,
      )
