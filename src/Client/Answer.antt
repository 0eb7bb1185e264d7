-- ===== src/Client/Answer.antt =====
-- client.c: the status line of an answer and the message of an error.
use file_system_server.Base.{
  ℕ, List, [], ◌∷◌, none, some, newline, codes, str_eq, c_string, ◌==◌, if◌then◌else◌,
}
use file_system_server.Common.ReadLine.{read_line_from_socket}
use file_system_server.Client.State.{
  Session, connection_closed, error_message, invalid_response, print, with_rest,
}

abbrev pub line_size : ℕ
line_size = 1024

-- `error_buffer[err_len - 1] = '\0'` where that byte is a newline, read as a C string.
unfoldable pub strip_newline : List ℕ → List ℕ
strip_newline [] = []
strip_newline (c ∷ []) = if c == newline then [] else c ∷ []
strip_newline (c ∷ d ∷ cs) = c ∷ strip_newline (d ∷ cs)

-- The line behind `ERROR`.
unfoldable pub error_answer : {Disk : Type 0} → Session Disk → Session Disk
error_answer s =
    let r = read_line_from_socket line_size s.socket.incoming in
    elim r.0 [
      | none ↦ print invalid_response (with_rest r.1 s)
      | some [] ↦ print invalid_response (with_rest r.1 s)
      | some (c ∷ cs) ↦ print (error_message (c_string (strip_newline (c ∷ cs)))) (with_rest r.1 s)
    ]

-- The two comparisons of the status line, which exclude each other.
unfoldable pub status_answer :
    {Disk : Type 0} → (Session Disk → Session Disk) → List ℕ → Session Disk → Session Disk
unfolding error_answer
status_answer on_ok line s =
    if str_eq (c_string line) (codes "OK\n")
    then on_ok s
    else if str_eq (c_string line) (codes "ERROR\n")
    then error_answer s
    else print invalid_response s

-- The status line, and what each handler does on `OK`.
unfoldable pub read_answer :
    {Disk : Type 0} → (Session Disk → Session Disk) → Session Disk → Session Disk
unfolding status_answer
read_answer on_ok s =
    let r = read_line_from_socket line_size s.socket.incoming in
    elim r.0 [
      | none ↦ print connection_closed (with_rest r.1 s)
      | some [] ↦ print connection_closed (with_rest r.1 s)
      | some (c ∷ cs) ↦ status_answer on_ok (c ∷ cs) (with_rest r.1 s)
    ]
