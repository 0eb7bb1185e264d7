-- ===== src/Client/Requests.antt =====
-- The requests of the client, as the server understands them.
use file_system_server.Base.{
  some_eq, ℕ, ◌+◌, ◌-◌, ◌<◌, ◌≡◌, refl, sym, ap, ◌∙◌, List, [], ◌∷◌, ◌++◌, some, arith, length,
  newline, split_at, str_eq, lt→ltb, append_assoc, length-append,
}
use file_system_server.Common.{Verb, get, put, delete, list, v_unknown}
use file_system_server.Common.ReadLine.{NoNewline}
use file_system_server.Os.{Recv, stream, FileSystem}
use file_system_server.Server.{Machine, max_header_len, recv_header}
use file_system_server.Server.Header.{split_line, parse_verb, start_request, handle_read_event}
use file_system_server.Server.Header.Line.{NoZero, headed, handle_read_event_line}
use file_system_server.Client.State.{request_text, command}

-- The requests that name a file.
abbrev pub NeedsName : Verb → Type 0
NeedsName get = Unit
NeedsName put = Unit
NeedsName delete = Unit
NeedsName list = ⊥
NeedsName v_unknown = ⊥

pub command-split :
    (v : Verb) (name : List ℕ)
    → NeedsName v
    → (parse_verb (split_line (command v ++ name)).0 ≡ v)
      × ((split_line (command v ++ name)).1 ≡ some name)
unfolding split_line split_at parse_verb str_eq
command-split get name h = (refl, refl)
command-split put name h = (refl, refl)
command-split delete name h = (refl, refl)
command-split list name h = absurd h
command-split v_unknown name h = absurd h

pub command-NoZero : (v : Verb) (name : List ℕ) → NoZero name → NoZero (command v ++ name)
command-NoZero get name z = (refl, (refl, (refl, (refl, z))))
command-NoZero put name z = (refl, (refl, (refl, (refl, z))))
command-NoZero delete name z = (refl, (refl, (refl, (refl, (refl, (refl, (refl, z)))))))
command-NoZero list name z = z
command-NoZero v_unknown name z = z

pub command-NoNewline : (v : Verb) (name : List ℕ) → NoNewline name → NoNewline (command v ++ name)
command-NoNewline get name n = (refl, (refl, (refl, (refl, n))))
command-NoNewline put name n = (refl, (refl, (refl, (refl, n))))
command-NoNewline delete name n = (refl, (refl, (refl, (refl, (refl, (refl, (refl, n)))))))
command-NoNewline list name n = n
command-NoNewline v_unknown name n = n

pub request_text-short :
    (prefix name : List ℕ)
    → length prefix + length name < 1023
    → request_text prefix name ≡ some (prefix ++ (name ++ newline ∷ []))
request_text-short prefix name lt =
    rw
      (lt→ltb (length (prefix ++ (name ++ newline ∷ []))) 1024 (
        omega
          (arith, length-append prefix (name ++ newline ∷ []), length-append name (newline ∷ []))))
      refl

-- When the text that the client makes of a verb and a file name arrives at a new connection, cut into any
-- pieces, with `more` behind it, the server starts the request of that verb and that name, for a
-- name without zero bytes and newlines that leaves the line shorter than the header.
pub request_understood :
    (fs : FileSystem) (m : Machine fs.Disk) (v : Verb) (name more text : List ℕ)
    → NeedsName v
    → m.client.state ≡ recv_header
    → m.client.header_buf ≡ []
    → NoZero name
    → NoNewline name
    → length (command v) + length name < max_header_len - 1
    → request_text (command v) name ≡ some text
    → stream m.socket.incoming ≡ text ++ more
    → (rest : List Recv) × (handle_read_event fs m
        ≡ start_request fs v (some name) (headed fs m text rest))
      × (stream rest ≡ more)
request_understood fs m v name more text h st hb z n lt t e =
    let line : List ℕ = command v ++ name in
    let whole : text ≡ line ++ newline ∷ [] =
      some_eq (sym t ∙ request_text-short (command v) name lt)
      ∙ sym (append_assoc (command v) name (newline ∷ [])) in
    let arrives : stream m.socket.incoming ≡ line ++ newline ∷ more =
      e ∙ ap (λ s. s ++ more) whole ∙ append_assoc line (newline ∷ []) more in
    let (rest, out, left) =
      handle_read_event_line fs m line more st hb (command-NoZero v name z)
        (command-NoNewline v name n) (omega (arith, length-append (command v) name)) arrives in
    (
      rest,
      out
          ∙ ap
              (λ u.
                start_request fs u (split_line line).1 (headed fs m (line ++ newline ∷ []) rest))
              (command-split v name h).0
          ∙ ap (λ o. start_request fs v o (headed fs m (line ++ newline ∷ []) rest))
              (command-split v name h).1
          ∙ ap (λ s. start_request fs v (some name) (headed fs m s rest)) (sym whole),
      left,
    )
