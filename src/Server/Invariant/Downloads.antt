-- ===== src/Server/Invariant/Downloads.antt =====
-- The handlers of a download and of a list keep the invariant.
use file_system_server.Base.{
  length-to_bytes, arith, ℕ, zero, suc, ◌+◌, ◌≡◌, refl, inl, inr, Bool, true, false, List, [], ◌∷◌,
  Option, none, some, Bool-cases, length, ltb, ◌==◌,
}
use file_system_server.EventLoop.{event_write}
use file_system_server.Os.{
  WriteResult, wrote, would_block, write_failed, write_interrupted, write, FileSystem,
}
use file_system_server.Server.State.{
  ConnState, recv_header, recv_put_size, recv_put_data, send_ok, send_error, send_get_size,
  send_get_data, send_list_data, done, Machine, filepath, size_len,
}
use file_system_server.Server.Response.{response_left, response_advanced}
use file_system_server.Server.Get.{
  size_known, download_opened, start_send_get, size_filled, size_sent, write_size,
  send_get_size_handler, pread_download, chunk_sent, send_get_data_loop, send_get_data_handler,
  list_left, list_advanced, send_list_data_handler,
}
use file_system_server.Server.Invariant.{
  Watches, Going, Going-client, Served, IsLive, live-Served, either-Served, closed-Served,
  finish-Served,
}
use file_system_server.Server.Invariant.Responses.{prepare_and_send_response-Served}

-- The states in which bytes are sent behind the status line.
abbrev pub Sending : ConnState → Type 0
Sending send_get_size = Unit
Sending send_get_data = Unit
Sending send_list_data = Unit
Sending _ = ⊥

-- A live connection that is watched for writing.
abbrev pub IsWaiting : {Disk : Type 0} → Machine Disk → Machine Disk → Type 0
IsWaiting m0 m = (m.freed ≡ false) × (m.interest ≡ some event_write) × Going m0 m

Watches-Sending :
    (f : Bool) (st : ConnState) (i : Option ℕ) → Sending st → i ≡ some event_write → Watches f st i
Watches-Sending true st i r h = tt
Watches-Sending false recv_header i r h = absurd r
Watches-Sending false recv_put_size i r h = absurd r
Watches-Sending false recv_put_data i r h = absurd r
Watches-Sending false send_ok i r h = absurd r
Watches-Sending false send_error i r h = absurd r
Watches-Sending false send_get_size i r h = h
Watches-Sending false send_get_data i r h = h
Watches-Sending false send_list_data i r h = h
Watches-Sending false done i r h = absurd r

module _ (fs : FileSystem) (m0 : Machine fs.Disk) where
  open fs use {Disk, open_read, fstat_size, unlink}

  Sending-Served : (m : Machine Disk) → Sending m.client.state → IsWaiting m0 m → Served m0 m
  Sending-Served m r (f, i, g) =
      live-Served fs m0 m f (Watches-Sending m.freed m.client.state m.interest r i) g

  size_known-Served :
      (f : ℕ) (o : Option ℕ) (m : Machine Disk) → IsLive m0 m → Served m0 (size_known fs f o m)
  size_known-Served f none m h = prepare_and_send_response-Served fs m0 _ _ h
  size_known-Served f (some n) m h = prepare_and_send_response-Served fs m0 _ _ h

  download_opened-Served :
      (o : Option ℕ × Disk) (m : Machine Disk) → IsLive m0 m → Served m0 (download_opened fs o m)
  download_opened-Served (none, d) m h = prepare_and_send_response-Served fs m0 _ _ h
  download_opened-Served (some f, d) m h =
      size_known-Served f (fstat_size f d) (record m { disk = d }) h

  pub start_send_get-Served : (m : Machine Disk) → IsLive m0 m → Served m0 (start_send_get fs m)
  unfolding start_send_get
  start_send_get-Served m h = download_opened-Served (open_read (filepath m) m.disk) m h

  write_size-Served :
      (m : Machine Disk) → Sending m.client.state → IsWaiting m0 m → Served m0 (write_size fs m)
  unfolding write_size
  write_size-Served m r h = go (write (response_left m.client) m.socket) refl
    where
      go :
          (w : WriteResult)
          → write (response_left m.client) m.socket ≡ w
          → Served m0 (write_size fs m)
      go (would_block s) e = rw (e, write_size) (Sending-Served (record m { socket = s }) r h)
      go (write_failed s) e = rw (e, write_size) (closed-Served fs m0 _ h.2)
      go (write_interrupted s) e = rw (e, write_size) (closed-Served fs m0 _ h.2)
      go (wrote n s) e =
          rw (e, write_size)
            (either-Served fs m0 (m.client.simple_response_sent + n == m.client.simple_response_len)
              (size_sent fs (response_advanced n s m)) (response_advanced n s m)
              (Sending-Served (size_sent fs (response_advanced n s m)) tt (h.0, refl, h.2))
              (Sending-Served (response_advanced n s m) r h))

  size_filled-IsWaiting : (m : Machine Disk) → IsWaiting m0 m → IsWaiting m0 (size_filled fs m)
  size_filled-IsWaiting m (f, i, g) = (
    f,
    i,
    Going-client fs m0 m (size_filled fs m).client g refl
        (λ (h, n, r). (h, n, omega (arith, length-to_bytes size_len m.client.file_size))),
  )

  pub send_get_size-Served :
      (m : Machine Disk)
      → Sending m.client.state
      → IsWaiting m0 m
      → Served m0 (send_get_size_handler fs m)
  unfolding send_get_size_handler
  send_get_size-Served m r h = elim (Bool-cases (m.client.simple_response_len == 0)) [
    | inl e ↦
        rw (e, send_get_size_handler)
          (write_size-Served (size_filled fs m) r (size_filled-IsWaiting m h))
    | inr e ↦ rw (e, send_get_size_handler) (write_size-Served m r h)
  ]

  get_data_round :
      (fuel : ℕ)
      → ((m : Machine Disk)
          → Sending m.client.state
          → IsWaiting m0 m
          → Served m0 (send_get_data_loop fs fuel m))
      → (m : Machine Disk) → Sending m.client.state
      → IsWaiting m0 m
      → ltb m.client.bytes_transferred m.client.file_size ≡ true
      → (b : ℕ) (bs : List ℕ) → pread_download fs m ≡ b ∷ bs
      → (w : WriteResult) → write (b ∷ bs) m.socket ≡ w
      → Served m0 (send_get_data_loop fs (suc fuel) m)
  unfolding send_get_data_loop
  get_data_round fuel keep m r h more b bs p (would_block s) e =
      rw (more, p, e, send_get_data_loop) (Sending-Served (record m { socket = s }) r h)
  get_data_round fuel keep m r h more b bs p (write_failed s) e =
      rw (more, p, e, send_get_data_loop) (closed-Served fs m0 _ h.2)
  get_data_round fuel keep m r h more b bs p (write_interrupted s) e =
      rw (more, p, e, send_get_data_loop) (closed-Served fs m0 _ h.2)
  get_data_round fuel keep m r h more b bs p (wrote n s) e =
      elim (Bool-cases (ltb n (suc (length bs)))) [
        | inl x ↦ rw (more, p, e, x, send_get_data_loop) (Sending-Served (chunk_sent fs n s m) r h)
        | inr x ↦ rw (more, p, e, x, send_get_data_loop) (keep (chunk_sent fs n s m) r h)
      ]

  get_data_read :
      (fuel : ℕ)
      → ((m : Machine Disk)
          → Sending m.client.state
          → IsWaiting m0 m
          → Served m0 (send_get_data_loop fs fuel m))
      → (m : Machine Disk) → Sending m.client.state
      → IsWaiting m0 m
      → ltb m.client.bytes_transferred m.client.file_size ≡ true
      → (bs : List ℕ) → pread_download fs m ≡ bs
      → Served m0 (send_get_data_loop fs (suc fuel) m)
  unfolding send_get_data_loop
  get_data_read fuel keep m r h more [] p =
      rw (more, p, send_get_data_loop) (closed-Served fs m0 _ h.2)
  get_data_read fuel keep m r h more (b ∷ bs) p = get_data_round fuel keep m r h more b bs p _ refl

  send_get_data_loop-Served :
      (fuel : ℕ) (m : Machine Disk)
      → Sending m.client.state
      → IsWaiting m0 m
      → Served m0 (send_get_data_loop fs fuel m)
  unfolding send_get_data_loop
  send_get_data_loop-Served zero m r h = Sending-Served m r h
  send_get_data_loop-Served (suc fuel) m r h =
      elim (Bool-cases (ltb m.client.bytes_transferred m.client.file_size)) [
        | inl more ↦ get_data_read fuel (send_get_data_loop-Served fuel) m r h more _ refl
        | inr full ↦
            rw (full, send_get_data_loop)
              (either-Served fs m0 (m.client.bytes_transferred == m.client.file_size) _ m
                (finish-Served fs m0 m h.2) (Sending-Served m r h))
      ]

  pub send_get_data-Served :
      (m : Machine Disk)
      → Sending m.client.state
      → IsWaiting m0 m
      → Served m0 (send_get_data_handler fs m)
  unfolding send_get_data_handler
  send_get_data-Served m r h =
      send_get_data_loop-Served (suc (suc (length m.socket.outcomes))) m r h

  pub send_list_data-Served :
      (m : Machine Disk)
      → Sending m.client.state
      → IsWaiting m0 m
      → Served m0 (send_list_data_handler fs m)
  unfolding send_list_data_handler
  send_list_data-Served m r h = go (write (list_left fs m.client) m.socket) refl
    where
      go :
          (w : WriteResult)
          → write (list_left fs m.client) m.socket ≡ w
          → Served m0 (send_list_data_handler fs m)
      go (would_block s) e =
          rw (e, send_list_data_handler) (Sending-Served (record m { socket = s }) r h)
      go (write_failed s) e = rw (e, send_list_data_handler) (closed-Served fs m0 _ h.2)
      go (write_interrupted s) e = rw (e, send_list_data_handler) (closed-Served fs m0 _ h.2)
      go (wrote n s) e =
          rw (e, send_list_data_handler)
            (either-Served fs m0 (m.client.list_sent + n == m.client.list_len) _
              (list_advanced fs n s m) (finish-Served fs m0 _ h.2)
              (Sending-Served (list_advanced fs n s m) r h))
