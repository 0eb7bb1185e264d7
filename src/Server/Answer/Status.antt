-- ===== src/Server/Answer/Status.antt =====
-- The status line of an answer, and what is started behind the line `OK`.
use file_system_server.Base.{
  ℕ, ◌<◌, ◌≡◌, refl, sym, subst, ap, ◌∙◌, arith, false, List, [], ◌++◌, Option, none, some, length,
  length-to_bytes, to_bytes, append-nil, take_all,
}
use file_system_server.Common.{Verb, get, put, delete, list, v_unknown}
use file_system_server.Format.{err_bad_request}
use file_system_server.Os.{Socket, FileSystem, IsTaking}
use file_system_server.EventLoop.{event_write}
use file_system_server.Server.State.{
  send_ok, send_error, Machine, size_len, close_and_cleanup, modify_event_loop,
}
use file_system_server.Server.Response.{
  error, finish, set_state, response_left, ok_sent, response_sent, response_advanced, execute_write,
  start_send_list, execute_simple_response_write, prepare_response,
}
use file_system_server.Server.Answer.{
  body, owed, unsent, built, IsAnswering, IsFilled, Answers, Answers-step, complete, waiting,
  list_text,
}
use file_system_server.Server.Answer.Step.{one_write, one_write-Answers}

module _ (fs : FileSystem) (content : fs.Disk → List ℕ) where
  open fs use {Disk}

  line_write :
      (start : Machine Disk → Machine Disk) (m : Machine Disk)
      → execute_write fs start m
        ≡ one_write fs content m.client.simple_response_buf m.client.simple_response_len
            m.client.simple_response_sent
            (λ n s. response_sent fs start m.client.state (response_advanced n s m))
            (λ n s. modify_event_loop event_write (response_advanced n s m))
            m
  unfolding execute_write one_write
  line_write start m = refl

  pub send_error-Answers :
      (start : Machine Disk → Machine Disk) (m : Machine Disk)
      → IsAnswering fs content (set_state send_error m)
      → Answers fs content
          (set_state send_error m)
          (execute_write fs start (set_state send_error m))
  unfolding response_sent finish close_and_cleanup
  send_error-Answers start m a =
      let m1 = set_state send_error m in
      subst (Answers fs content m1) (sym (line_write start m1)) (
        one_write-Answers fs content m.client.simple_response_buf m.client.simple_response_len
          m.client.simple_response_sent _ _ m1 [] a (sym (append-nil (response_left m.client)))
          a.formed.0 a.formed.1
          (λ n s same less taking. complete refl (sym (append-nil s.sent) ∙ same))
          (λ n s lt same pos size.
            let none_behind = append-nil (response_left (response_advanced n s m).client) in
            waiting (record { live = a.live; watched = refl; formed = (lt, a.formed.1) })
              (ap (λ z. s.sent ++ z) (sym none_behind) ∙ same)
              (omega (arith, size, ap length none_behind))
              (λ h room. omega (arith, pos h, size, ap length none_behind))))

  -- The connection whose line is `OK`, for a request of verb `v`.
  abbrev pub approved : Verb → Machine Disk → Machine Disk
  approved v m = record m { client = record m.client { state = send_ok; request_verb = v } }

  abbrev behind_ok : Verb → Machine Disk → List ℕ
  behind_ok v m = body v m.client.file_size (unsent fs content m) (built fs content m)

  list_started :
      (m : Machine Disk) (n : ℕ) (s : Socket) (o : Option (List ℕ × ℕ))
      → built fs content m ≡ o
      → IsFilled o
      → m.freed ≡ false
      → m.interest ≡ some event_write
      → s.sent ++ list_text o ≡ m.socket.sent ++ owed fs content (approved list m)
      → length (list_text o) < length (owed fs content (approved list m))
      → (IsTaking m.socket.outcomes → IsTaking s.outcomes)
      → Answers fs content
          (approved list m)
          (start_send_list fs (response_advanced n s (approved list m)))
  unfolding start_send_list
  list_started m n s none e h live watched same less taking =
      let m2 = prepare_response (error err_bad_request) (response_advanced n s (approved list m)) in
      rw (start_send_list, e)
        (Answers-step fs content (approved list m) m2 _ same (λ t. (less, taking t)) (omega arith)
          (send_error-Answers (λ m'. m') m2
            (record { live = live; watched = watched; formed = (omega arith, omega arith) })))
  list_started m n s (some (buffer, len)) e h live watched same less taking =
      rw (start_send_list, e)
        (waiting (record { live = live; watched = refl; formed = h }) same (omega arith)
          (λ t room. less))

  ok_started :
      (v : Verb) (m : Machine Disk) (n : ℕ) (s : Socket)
      → IsAnswering fs content (approved v m)
      → s.sent ++ behind_ok v m ≡ m.socket.sent ++ owed fs content (approved v m)
      → length (behind_ok v m) < length (owed fs content (approved v m))
      → (IsTaking m.socket.outcomes → IsTaking s.outcomes)
      → Answers fs content
          (approved v m)
          (ok_sent fs (start_send_list fs) v (response_advanced n s (approved v m)))
  unfolding ok_sent finish close_and_cleanup
  ok_started get m n s a same less taking =
      let eight = length-to_bytes size_len m.client.file_size in
      let all = take_all 8 (to_bytes size_len m.client.file_size) (omega (arith, eight)) in
      waiting
        (record {
          live = a.live;
          watched = refl;
          formed = ((omega arith, omega (arith, eight)), a.formed.1);
        })
        (ap (λ z. s.sent ++ (z ++ unsent fs content m)) all ∙ same)
        (omega (arith, ap (λ z. length (z ++ unsent fs content m)) all))
        (λ t room. omega (arith, ap (λ z. length (z ++ unsent fs content m)) all))
  ok_started list m n s a same less taking =
      list_started m n s (built fs content m) refl a.formed.1 a.live a.watched same less taking
  ok_started put m n s a same less taking = complete refl (sym (append-nil s.sent) ∙ same)
  ok_started delete m n s a same less taking = complete refl (sym (append-nil s.sent) ∙ same)
  ok_started v_unknown m n s a same less taking = complete refl (sym (append-nil s.sent) ∙ same)

  pub send_ok-Answers :
      (v : Verb) (m : Machine Disk)
      → IsAnswering fs content (approved v m)
      → Answers fs content (approved v m) (execute_simple_response_write fs (approved v m))
  unfolding response_sent execute_simple_response_write
  send_ok-Answers v m a =
      let m1 = approved v m in
      subst (Answers fs content m1) (sym (line_write (start_send_list fs) m1)) (
        one_write-Answers fs content m.client.simple_response_buf m.client.simple_response_len
          m.client.simple_response_sent _ _ m1 (behind_ok v m) a refl (a.formed.0).0 (a.formed.0).1
          (λ n s same less taking. ok_started v m n s a same less taking)
          (λ n s lt same pos size.
            waiting
              (record {
                live = a.live;
                watched = refl;
                formed = ((lt, (a.formed.0).1), a.formed.1);
              })
              same (omega (arith, size)) (λ h room. omega (arith, pos h, size))))
