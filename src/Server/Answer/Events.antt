-- ===== src/Server/Answer/Events.antt =====
-- A write event of a connection that is in the middle of an answer.
use file_system_server.Base.{ℕ, ◌≡◌, refl, sym, subst, arith, List, some, length-drop}
use file_system_server.Os.{FileSystem}
use file_system_server.Server.State.{
  ConnState, recv_header, recv_put_size, recv_put_data, send_ok, send_error, send_get_size,
  send_get_data, send_list_data, done, Machine,
}
use file_system_server.Server.Response.{set_state, start_send_list, execute_simple_response_write}
use file_system_server.Server.Get.{send_get_data_handler}
use file_system_server.Server.Events.{write_event, handle_write_event}
use file_system_server.Server.Get.Download.{Downloads, send_get_data-Downloads}
use file_system_server.Server.Answer.{IsReadable, IsAnswering, Answers, complete, waiting, failing}
use file_system_server.Server.Answer.Handlers.{send_list_data-Answers, send_get_size-Answers}
use file_system_server.Server.Answer.Status.{send_error-Answers, send_ok-Answers}

module _ (fs : FileSystem) (content : fs.Disk → List ℕ) where
  open fs use {Disk, pread}

  download-Answers :
      (f : ℕ) (m out : Machine Disk)
      → (reads : IsReadable fs content f) → m.client.file_fd ≡ some f
      → IsAnswering fs content (set_state send_get_data m)
      → Downloads fs f
          (record { content = content; reads = reads })
          (set_state send_get_data m)
          m.socket
          m.client.bytes_transferred
          out
      → Answers fs content (set_state send_get_data m) out
  download-Answers f m out reads is_open a (Downloads.complete closed sent) = complete closed sent
  download-Answers f m out reads is_open a (Downloads.waiting s t is le fits same grows) =
      let before = length-drop m.client.bytes_transferred (content m.disk) in
      let after = length-drop t (content m.disk) in
      subst (Answers fs content (set_state send_get_data m)) (sym is) (
        waiting
          (record {
            live = a.live;
            watched = a.watched;
            formed = (f, refl, reads, a.formed.3, fits);
          })
          same (omega (arith, before, after))
          (λ h room. omega (arith, before, after, grows h room, fits, a.formed.3)))
  download-Answers f m out reads is_open a (Downloads.failing left closed sent dead) =
      failing left closed sent dead

  send_get_data-Answers :
      (m : Machine Disk)
      → IsAnswering fs content (set_state send_get_data m)
      → Answers fs content
          (set_state send_get_data m)
          (send_get_data_handler fs (set_state send_get_data m))
  send_get_data-Answers m a =
      let m1 = set_state send_get_data m in
      let (f, is_open, reads, size, fits) = a.formed in
      download-Answers f m (send_get_data_handler fs m1) reads is_open a (
        send_get_data-Downloads fs f (record { content = content; reads = reads }) m1 is_open size
          fits)

  write_event-Answers :
      (st : ConnState) (m : Machine Disk)
      → IsAnswering fs content (set_state st m)
      → Answers fs content (set_state st m) (write_event fs st (set_state st m))
  unfolding write_event execute_simple_response_write
  write_event-Answers send_ok m a = send_ok-Answers fs content m.client.request_verb m a
  write_event-Answers send_error m a = send_error-Answers fs content (start_send_list fs) m a
  write_event-Answers send_get_size m a = send_get_size-Answers fs content m a
  write_event-Answers send_get_data m a = send_get_data-Answers m a
  write_event-Answers send_list_data m a = send_list_data-Answers fs content m a
  write_event-Answers recv_header m a = absurd a.formed
  write_event-Answers recv_put_size m a = absurd a.formed
  write_event-Answers recv_put_data m a = absurd a.formed
  write_event-Answers done m a = absurd a.formed

  -- For a connection in the middle of an answer: it is watched for writing, its buffers hold what is unsent, and
  -- where the file is due, it is open, readable and of the announced size. Whatever the socket does at
  -- a write event: either all that the connection owes is sent and it is closed; or it is still in the
  -- middle of an answer, and what is sent with what is owed is as before; or the socket failed or was
  -- interrupted, the connection is closed, and a first part was sent. On a socket that takes a byte
  -- at least with each write the last does not happen, and the connection owes less behind the event
  -- if there is room for a write.
  pub handle_write_event-Answers :
      (m : Machine Disk) → IsAnswering fs content m → Answers fs content m (handle_write_event fs m)
  unfolding handle_write_event
  handle_write_event-Answers m a = write_event-Answers m.client.state m a
