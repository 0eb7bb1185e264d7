-- ===== src/Server/Answer/Handlers.antt =====
-- The handlers of `handle_write_event` but the loop over the file: each sends a part of what is owed.
use file_system_server.Base.{
  ℕ, ◌+◌, ◌≡◌, refl, sym, subst, ap, ◌∙◌, arith, false, List, [], ◌++◌, length, length-to_bytes,
  append-nil, if◌then◌else◌, Bool-cases, inl, inr, ◌==◌,
}
use file_system_server.Os.{FileSystem}
use file_system_server.Server.State.{
  send_get_size, send_list_data, Machine, size_len, close_and_cleanup,
}
use file_system_server.Server.Response.{finish, set_state, response_left, response_advanced}
use file_system_server.Server.Get.{
  size_filled, list_left, size_prepared, size_sent, write_size, send_get_size_handler,
  list_advanced, send_list_data_handler,
}
use file_system_server.Server.Answer.{
  owed, unsent, IsReady, IsPending, IsAnswering, Answers, Answers-same, complete, waiting,
}
use file_system_server.Server.Answer.Step.{length-left, one_write, one_write-Answers}

module _ (fs : FileSystem) (content : fs.Disk → List ℕ) where
  open fs use {Disk}

  list_write :
      (m : Machine Disk)
      → send_list_data_handler fs m
        ≡ one_write fs content m.client.list_buf m.client.list_len m.client.list_sent
            (λ n s. finish fs (list_advanced fs n s m))
            (λ n s. list_advanced fs n s m)
            m
  unfolding send_list_data_handler one_write
  list_write m = refl

  pub send_list_data-Answers :
      (m : Machine Disk)
      → IsAnswering fs content (set_state send_list_data m)
      → Answers fs content
          (set_state send_list_data m)
          (send_list_data_handler fs (set_state send_list_data m))
  unfolding finish close_and_cleanup
  send_list_data-Answers m a =
      let m1 = set_state send_list_data m in
      let size = λ (k : ℕ). length-left m.client.list_buf m.client.list_len k a.formed.1 in
      subst (Answers fs content m1) (sym (list_write m1)) (
        one_write-Answers fs content m.client.list_buf m.client.list_len m.client.list_sent _ _ m1
          [] a (sym (append-nil (list_left fs m.client))) a.formed.0 a.formed.1
          (λ n s same less taking. complete refl (sym (append-nil s.sent) ∙ same))
          (λ n s lt same pos shrinks.
            waiting (record { live = a.live; watched = a.watched; formed = (lt, a.formed.1) })
              (ap (λ z. s.sent ++ z)
                  (sym (append-nil (list_left fs (list_advanced fs n s m).client)))
                ∙ same)
              (omega (arith, size m.client.list_sent, size (m.client.list_sent + n)))
              (λ h room.
                omega (arith, pos h, size m.client.list_sent, size (m.client.list_sent + n)))))

  size_write :
      (m : Machine Disk)
      → write_size fs m
        ≡ one_write fs content m.client.simple_response_buf m.client.simple_response_len
            m.client.simple_response_sent
            (λ n s. size_sent fs (response_advanced n s m))
            (λ n s. response_advanced n s m)
            m
  unfolding write_size one_write
  size_write m = refl

  -- The size with the response buffer filled.
  write_size-Answers :
      (m : Machine Disk)
      → (m.client.simple_response_len == 0) ≡ false
      → IsAnswering fs content (set_state send_get_size m)
      → Answers fs content (set_state send_get_size m) (write_size fs (set_state send_get_size m))
  write_size-Answers m z a =
      let m1 = set_state send_get_size m in
      let (formed, ready) : IsPending m.client × IsReady fs content m =
        subst (λ b. IsPending (if b then size_filled fs m1 else m1).client × IsReady fs content m) z
          a.formed in
      subst (Answers fs content m1) (sym (size_write m1)) (
        one_write-Answers fs content m.client.simple_response_buf m.client.simple_response_len
          m.client.simple_response_sent _ _ m1 (unsent fs content m) a
          (ap
            (λ b. response_left (if b then size_filled fs m1 else m1).client ++ unsent fs content m)
            z)
          formed.0 formed.1
          (λ n s same less taking.
            waiting (record { live = a.live; watched = refl; formed = ready }) same (omega arith)
              (λ h room. less))
          (λ n s lt same pos size.
            let m2 = response_advanced n s m1 in
            let is : owed fs content m2 ≡ response_left m2.client ++ unsent fs content m =
              ap
                (λ b.
                  response_left (if b then size_filled fs m2 else m2).client ++ unsent fs content m)
                z in
            waiting
              (record {
                live = a.live;
                watched = a.watched;
                formed =
                    subst
                      (λ b.
                        IsPending (if b then size_filled fs m2 else m2).client
                        × IsReady fs content m)
                      (sym z) ((lt, formed.1), ready);
              })
              (ap (λ q. s.sent ++ q) is ∙ same) (omega (arith, size, ap length is))
              (λ h room. omega (arith, pos h, size, ap length is))))

  pub send_get_size-Answers :
      (m : Machine Disk)
      → IsAnswering fs content (set_state send_get_size m)
      → Answers fs content
          (set_state send_get_size m)
          (send_get_size_handler fs (set_state send_get_size m))
  unfolding send_get_size_handler
  send_get_size-Answers m a =
      let m1 = set_state send_get_size m in
      elim (Bool-cases (m.client.simple_response_len == 0)) [
        | inl empty ↦
            let prepared : size_prepared fs m1 ≡ size_filled fs m1 =
              ap (λ b. if b then size_filled fs m1 else m1) empty in
            let eight = length-to_bytes size_len m.client.file_size in
            let same : owed fs content m1 ≡ owed fs content (size_filled fs m1) =
              ap (λ q. response_left q.client ++ unsent fs content m) prepared in
            subst (λ q. Answers fs content m1 (write_size fs q)) (sym prepared)
              (Answers-same fs content m1 (size_filled fs m1) _ refl (sym same) (
                write_size-Answers (size_filled fs m1) refl (record {
                  live = a.live;
                  watched = a.watched;
                  formed = ((omega arith, omega (arith, eight)), a.formed.1);
                })))
        | inr full ↦
            subst (λ q. Answers fs content m1 (write_size fs q))
              (sym (ap (λ b. if b then size_filled fs m1 else m1) full))
              (write_size-Answers m full a)
      ]
