-- ===== src/Server/Response/Delivery.antt =====
-- The status line: what reaches the client, and what the connection does behind it.
use file_system_server.Base.{
  ℕ, ◌+◌, ◌-◌, ◌≤◌, ◌<◌, ◌≡◌, refl, ap, ◌∙◌, true, false, List, [], ◌∷◌, ◌++◌, some, arith, length,
  length-take, length-drop, take, drop, take_all, range_step, append_assoc, leb, ◌==◌, ◌&&◌, ==_iff,
  if◌then◌else◌,
}
use file_system_server.Common.{Verb, put}
use file_system_server.EventLoop.{event_write}
use file_system_server.Os.{
  Send, accepts, Socket, write, wrote, would_block, FileSystem, after_write, write_whole,
  write_part, write_full,
}
use file_system_server.Server.State.{
  Client, Machine, max_header_len, modify_event_loop, close_if_open, close_and_cleanup, filepath,
  is_put,
}
use file_system_server.Server.Response.{
  Status, error, status_text, status_state, prepare_client, prepare_response, response_left,
  response_advanced, finish, response_sent, execute_write, start_send_list,
  execute_simple_response_write, prepare_and_send_response,
}

-- A response fits its buffer.
abbrev pub IsShort : Status → Type 0
IsShort status = length (status_text status) < max_header_len

module _ (fs : FileSystem) where
  open fs use {Disk}

  -- The connection with its whole response out.
  abbrev pub responded : Status → List Send → Machine Disk → Machine Disk
  responded status rest m =
      response_advanced (length (status_text status))
        (after_write m.socket rest (status_text status)) (prepare_response status m)

  pub left_whole :
      (status : Status) (c : Client)
      → IsShort status
      → (response_left (prepare_client status c) ≡ status_text status)
        × ((prepare_client status c).simple_response_len ≡ length (status_text status))
  left_whole status c h =
      let all : take (max_header_len - 1) (status_text status) ≡ status_text status =
        take_all 1023 (status_text status) (omega arith) in
      let short : leb max_header_len (length (status_text status)) ≡ false = ground arith in
      (
        rw (short, all)
            (take_all (length (status_text status) - 0) (status_text status) (omega arith)),
        rw short,
      )

  execute_wrote :
      (start : Machine Disk → Machine Disk) (m : Machine Disk) {n : ℕ} {s : Socket}
      → write (response_left m.client) m.socket ≡ wrote n s
      → execute_write fs start m ≡ (
          if m.client.simple_response_sent + n == m.client.simple_response_len
          then response_sent fs start m.client.state (response_advanced n s m)
          else modify_event_loop event_write (response_advanced n s m))
  unfolding execute_write
  execute_wrote start m e = rw (e, execute_write)

  execute_blocked :
      (start : Machine Disk → Machine Disk) (m : Machine Disk) {s : Socket}
      → write (response_left m.client) m.socket ≡ would_block s
      → execute_write fs start m ≡ record m { socket = s }
  unfolding execute_write
  execute_blocked start m e = rw (e, execute_write)

  -- The branch of the handler for what `write` returns.
  pub write_step :
      (m : Machine Disk) {n : ℕ} {s : Socket}
      → write (response_left m.client) m.socket ≡ wrote n s
      → execute_simple_response_write fs m ≡ (
          if m.client.simple_response_sent + n == m.client.simple_response_len
          then response_sent fs (start_send_list fs) m.client.state (response_advanced n s m)
          else modify_event_loop event_write (response_advanced n s m))
  unfolding execute_simple_response_write
  write_step m e = execute_wrote (start_send_list fs) m e

  blocked_step :
      (m : Machine Disk) {s : Socket}
      → write (response_left m.client) m.socket ≡ would_block s
      → execute_simple_response_write fs m ≡ record m { socket = s }
  unfolding execute_simple_response_write
  blocked_step m e = execute_blocked (start_send_list fs) m e

  -- Where the response fits its buffer and the socket takes it at once, exactly its text is sent, and
  -- the connection goes on as after a response of that status.
  pub prepare_and_send_response_whole :
      (status : Status) (m : Machine Disk) (k : ℕ) (rest : List Send)
      → IsShort status
      → m.socket.outcomes ≡ accepts k ∷ rest
      → length (status_text status) ≤ k
      → prepare_and_send_response fs status m
        ≡ response_sent fs (start_send_list fs) (status_state status) (responded status rest m)
  unfolding prepare_and_send_response
  prepare_and_send_response_whole status m k rest h e le =
      let m' = prepare_response status m in
      let left = left_whole status m.client h in
      let out : write (response_left (prepare_client status m.client)) m.socket
          ≡ wrote (length (status_text status)) (after_write m.socket rest (status_text status)) =
        ap (λ b. write b m.socket) left.0 ∙ write_whole (status_text status) m.socket k rest e le in
      let complete : (0 + length (status_text status)
            == (prepare_client status m.client).simple_response_len)
          ≡ true =
        (==_iff _ _).1 (omega (arith, left.1)) in
      write_step m' out ∙ rw complete

  -- Where the socket's buffer is full at the first write, the connection waits in the state of the
  -- response, and the events that are watched are the old ones.
  pub prepare_and_send_response_blocked :
      (status : Status) (m : Machine Disk)
      → m.socket.outcomes ≡ []
      → prepare_and_send_response fs status m ≡ prepare_response status m
  unfolding prepare_and_send_response
  prepare_and_send_response_blocked status m e =
      blocked_step (prepare_response status m)
        (write_full (response_left (prepare_client status m.client)) m.socket e)

  -- An error response that fits its buffer and that the socket takes at once ends the connection: its
  -- text is sent, the file is closed if one is open, nothing is unlinked, and the list of names is
  -- unchanged.
  pub error_response_whole :
      (msg : List ℕ) (m : Machine Disk) (k : ℕ) (rest : List Send)
      → IsShort (error msg)
      → m.socket.outcomes ≡ accepts k ∷ rest
      → length (status_text (error msg)) ≤ k
      → let m' = prepare_and_send_response fs (error msg) m in
        (m'.freed ≡ true)
        × (m'.socket.sent ≡ m.socket.sent ++ status_text (error msg))
        × (m'.disk ≡ close_if_open fs m.client.file_fd m.disk)
        × (m'.server_files ≡ m.server_files)
  unfolding response_sent finish close_and_cleanup
  error_response_whole msg m k rest h e le =
      rw (prepare_and_send_response_whole (error msg) m k rest h e le)
        (refl, refl, no_unlink m.client.request_verb, refl)
    where
      no_unlink :
          (v : Verb)
          → close_if_open fs m.client.file_fd
              (if is_put v && false then (fs.unlink (filepath m) m.disk).1 else m.disk)
            ≡ close_if_open fs m.client.file_fd m.disk
      no_unlink put = refl
      no_unlink _ = refl

  -- Where the socket takes less than what is left of a response that is within its buffer: what was sent
  -- and what is left make up what was to be sent, and the connection is watched for writing in
  -- its state.
  pub execute_simple_response_write_part :
      (m : Machine Disk) (k : ℕ) (rest : List Send)
      → m.socket.outcomes ≡ accepts k ∷ rest
      → k < length (response_left m.client)
      → m.client.simple_response_len ≤ length m.client.simple_response_buf
      → let m' = execute_simple_response_write fs m in
        (m'.socket.sent ++ response_left m'.client ≡ m.socket.sent ++ response_left m.client)
        × (m'.interest ≡ some event_write)
        × (m'.client.state ≡ m.client.state)
        × (m'.freed ≡ m.freed)
  execute_simple_response_write_part m k rest e lt fits =
      let left : ℕ = m.client.simple_response_len - m.client.simple_response_sent in
      let size : length (response_left m.client) ≡ left = omega (
        arith,
        length-take left (drop m.client.simple_response_sent m.client.simple_response_buf),
        length-drop m.client.simple_response_sent m.client.simple_response_buf,
      ) in
      let more : (m.client.simple_response_sent + k == m.client.simple_response_len) ≡ false =
        ground (arith, size) in
      rw (write_step m (write_part (response_left m.client) m.socket k rest e lt), more)
        (
          append_assoc m.socket.sent _ _
              ∙ ap (λ t. m.socket.sent ++ t)
                  (range_step m.client.simple_response_len m.client.simple_response_sent k
                    m.client.simple_response_buf),
          refl,
          refl,
          refl,
        )
