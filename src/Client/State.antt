-- ===== src/Client/State.antt =====
-- client.c: a session over one socket, the local files and what is printed.
use file_system_server.Base.{
  ℕ, Bool, List, [], ◌∷◌, ◌++◌, Option, none, some, length, take, codes, leb, ltb, newline,
  if◌then◌else◌,
}
use file_system_server.Common.{Verb, get, put, delete, list, v_unknown}
use file_system_server.Os.{Recv, Socket}
use file_system_server.Common.WriteAll.{write_all_to_socket}

-- The calls on local files, and the state that they act on. `none` is a failure. Writing is that of
-- `write_all_to_socket` on the file's descriptor, whose result the client does not look at.
pub record LocalFiles : Type 1 where
  pub Disk : Type 0
  pub create : List ℕ → Disk → Option ℕ × Disk
  pub write_file : ℕ → List ℕ → Disk → Disk
  pub close_file : ℕ → Disk → Disk
  pub fopen_contents : List ℕ → Disk → Option (List ℕ)
  pub stat_size : List ℕ → Disk → Option ℕ

-- What the client prints, by the function of format.c, with `perror` and what goes to standard output.
pub data Output : Type 0 where
  client_usage : Output
  client_help : Output
  connection_closed : Output
  error_message : List ℕ → Output
  invalid_response : Output
  too_little_data : Output
  received_too_much_data : Output
  success : Output
  local_error : Output
  out_of_memory : Output
  standard_output : List ℕ → Output

pub record Session (Disk : Type 0) : Type 0 where
  pub socket : Socket
  pub write_side_open : Bool
  pub disk : Disk
  pub output : List Output
  pub memory : Bool

abbrev pub print : {Disk : Type 0} → Output → Session Disk → Session Disk
print o s = record s { output = s.output ++ o ∷ [] }

abbrev pub with_rest : {Disk : Type 0} → List Recv → Session Disk → Session Disk
with_rest rest s = record s { socket = record s.socket { incoming = rest } }

-- `write_all_to_socket(socket, buffer, count)`, its result not looked at.
unfoldable pub send_all : {Disk : Type 0} → List ℕ → Session Disk → Session Disk
send_all buffer s = record s { socket = (write_all_to_socket buffer s.socket).1 }

-- `snprintf` of a request into 1024 bytes, as far as the write that follows may read: `none` where the
-- length that it returns is past the end of the buffer.
abbrev pub request_text : List ℕ → List ℕ → Option (List ℕ)
request_text command remote =
    let text = command ++ (remote ++ newline ∷ []) in
    if ltb (length text) 1024
    then some text
    else if leb (length text) 1024
    then some (take 1023 text ++ 0 ∷ [])
    else none

-- What stands in front of the file name in the three requests that have one.
abbrev pub command : Verb → List ℕ
command get = codes "GET "
command put = codes "PUT "
command delete = codes "DELETE "
command list = []
command v_unknown = []
