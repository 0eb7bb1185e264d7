-- ===== src/Server/Answer/First.antt =====
-- The first write of an answer, which is made while the connection is still watched for reading.
use file_system_server.Base.{
  ℕ, ◌+◌, ◌-◌, ◌≤◌, ◌<◌, ◌≡◌, refl, sym, ap, ◌∙◌, arith, true, false, Bool, List, [], ◌++◌, Option,
  none, some, length, if◌then◌else◌, ◌==◌, length-take, append-nil,
}
use file_system_server.Common.{Verb, get, put, delete, list, v_unknown}
use file_system_server.EventLoop.{event_write}
use file_system_server.Os.{
  Send, Socket, FileSystem, IsTaking, write, wrote, write_cases, taken, blocked, refused, signalled,
}
use file_system_server.Server.State.{Machine, max_header_len, modify_event_loop, close_and_cleanup}
use file_system_server.Server.Response.{
  Status, ok, error, status_text, status_state, prepare_response, response_left, response_advanced,
  ok_sent, response_sent, start_send_list, execute_simple_response_write, prepare_and_send_response,
  finish, prepare_client,
}
use file_system_server.Server.Response.Delivery.{IsShort, left_whole, write_step}
use file_system_server.Server.Answer.{body, unsent, built, owed, IsSupplied, IsReady, IsAnswering}
use file_system_server.Server.Answer.Events.{handle_write_event-Answers}
use file_system_server.Server.Answer.Rounds.{
  IsSteady, write_events, round-IsDelivered, write_events-IsDelivered,
}
use file_system_server.Server.Events.{write_event, handle_write_event}

-- The same connection, watched for writing.
abbrev pub writable : {Disk : Type 0} → Machine Disk → Machine Disk
writable m = modify_event_loop event_write m

-- Where memory runs out for a list, the second line of the answer may stall.
abbrev pub HasList : Status → Verb → Option (List ℕ × ℕ) → Type 0
HasList ok list none = ⊥
HasList _ _ _ = Unit

module _ (fs : FileSystem) (content : fs.Disk → List ℕ) where
  open fs use {Disk}

  ok_alike :
      (v : Verb) (m : Machine Disk) (o : Option (List ℕ × ℕ))
      → built fs content m ≡ o
      → HasList ok v o
      → ok_sent fs (start_send_list fs) v m ≡ ok_sent fs (start_send_list fs) v (writable m)
  unfolding ok_sent finish close_and_cleanup start_send_list
  ok_alike list m none e h = absurd h
  ok_alike list m (some (buffer, len)) e h = rw (start_send_list, e) refl
  ok_alike get m o e h = refl
  ok_alike put m o e h = refl
  ok_alike delete m o e h = refl
  ok_alike v_unknown m o e h = refl

  sent_alike :
      (status : Status) (m : Machine Disk)
      → HasList status m.client.request_verb (built fs content m)
      → response_sent fs (start_send_list fs) (status_state status) m
        ≡ response_sent fs (start_send_list fs) (status_state status) (writable m)
  unfolding response_sent finish close_and_cleanup
  sent_alike ok m h = ok_alike m.client.request_verb m (built fs content m) refl h
  sent_alike (error msg) m h = refl

  if_alike : (b : Bool) (x y z : Machine Disk) → x ≡ y → (if b then x else z) ≡ (if b then y else z)
  if_alike b x y z e = ap (λ q. if b then q else z) e

  -- A first write that takes something leaves the same connection, whatever was watched before.
  first_write-writable :
      (status : Status) (m : Machine Disk) (n : ℕ) (s : Socket)
      → HasList status m.client.request_verb (built fs content m)
      → write (response_left (prepare_client status m.client)) m.socket ≡ wrote n s
      → prepare_and_send_response fs status m
        ≡ execute_simple_response_write fs (writable (prepare_response status m))
  unfolding prepare_and_send_response
  first_write-writable status m n s h e =
      let m1 = prepare_response status m in
      write_step fs m1 e
      ∙ if_alike (0 + n == m1.client.simple_response_len) _ _
          (modify_event_loop event_write (response_advanced n s m1))
          (sent_alike status (response_advanced n s m1) h)
      ∙ sym (write_step fs (writable m1) e)

  -- What follows a response of that status.
  abbrev pub behind : Status → Machine Disk → List ℕ
  behind ok m =
      body m.client.request_verb m.client.file_size (unsent fs content m) (built fs content m)
  behind (error msg) m = []

  abbrev pub IsBacked : Status → Machine Disk → Type 0
  IsBacked ok m = IsSupplied m.client.request_verb (IsReady fs content m) (built fs content m)
  IsBacked (error msg) m = Unit

  first-IsAnswering :
      (status : Status) (m : Machine Disk)
      → m.freed ≡ false
      → IsShort status
      → IsBacked status m
      → IsAnswering fs content (writable (prepare_response status m))
  first-IsAnswering ok m live short backed = record {
    live = live;
    watched = refl;
    formed = ((omega arith, omega arith), backed);
  }
  first-IsAnswering (error msg) m live short backed = record {
    live = live;
    watched = refl;
    formed = (
      omega (arith, (left_whole fs (error msg) m.client short).1),
      omega (
        arith,
        (left_whole fs (error msg) m.client short).1,
        length-take (max_header_len - 1) (status_text (error msg)),
      ),
    );
  }

  first_owed :
      (status : Status) (m : Machine Disk)
      → IsShort status
      → owed fs content (writable (prepare_response status m))
        ≡ status_text status ++ behind status m
  first_owed ok m short = refl
  first_owed (error msg) m short =
      (left_whole fs (error msg) m.client short).0 ∙ sym (append-nil (status_text (error msg)))

  first_write :
      (status : Status) (m : Machine Disk)
      → HasList status m.client.request_verb (built fs content m)
      → IsTaking m.socket.outcomes
      → 0 < length m.socket.outcomes
      → prepare_and_send_response fs status m
        ≡ execute_simple_response_write fs (writable (prepare_response status m))
  first_write status m h t pos =
      elim (write_cases (response_left (prepare_client status m.client)) m.socket) [
        | taken n rest e le less steady ↦ first_write-writable status m n _ h e
        | blocked e none_left ↦ absurd (omega (arith, ap length none_left))
        | refused s e q dead ↦ absurd (dead t)
        | signalled s e q dead ↦ absurd (dead t)
      ]

  -- The events of `handle_write_event` and the first write are one handler.
  line_handler :
      (status : Status) (m : Machine Disk)
      → handle_write_event fs (writable (prepare_response status m))
        ≡ execute_simple_response_write fs (writable (prepare_response status m))
  unfolding handle_write_event write_event
  line_handler ok m = refl
  line_handler (error msg) m = refl

  -- A response that fits its buffer, with a file that is ready or a list that is built where the verb asks
  -- for one, on a socket that at the first write and at each event behind it takes a byte at least
  -- with each write: after as many events as there are bytes to send, the connection is closed, and
  -- the text of the response with all that follows it is sent, in order and nothing else.
  pub response-IsDelivered :
      (status : Status) (os : List (List Send)) (m : Machine Disk)
      → m.freed ≡ false
      → IsShort status
      → IsBacked status m
      → HasList status m.client.request_verb (built fs content m)
      → IsTaking m.socket.outcomes
      → 0 < length m.socket.outcomes
      → IsSteady os
      → length (status_text status ++ behind status m) ≤ length os
      → let out = write_events fs os (prepare_and_send_response fs status m) in
        (out.freed ≡ true)
        × (out.socket.sent ≡ m.socket.sent ++ (status_text status ++ behind status m))
  response-IsDelivered status os m live short backed h t pos steady le =
      let m1 = writable (prepare_response status m) in
      let is = first_owed status m short in
      let d =
        round-IsDelivered fs content m.socket.outcomes os m1 (handle_write_event fs m1)
          (λ m' a lt. write_events-IsDelivered fs content os m' a steady lt) t pos
          (omega (arith, ap length is))
          (handle_write_event-Answers fs content m1
            (first-IsAnswering status m live short backed)) in
      let at : prepare_and_send_response fs status m ≡ handle_write_event fs m1 =
        first_write status m h t pos ∙ sym (line_handler status m) in
      (
        ap (λ q. (write_events fs os q).freed) at ∙ d.closed,
        ap (λ q. (write_events fs os q).socket.sent) at
            ∙ d.all_sent
            ∙ ap (λ z. m.socket.sent ++ z) is,
      )
