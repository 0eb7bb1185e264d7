-- ===== src/Server/Invariant/Uploads.antt =====
-- The handlers of an upload keep the invariant on the watched events.
use file_system_server.Base.{
  ℕ, zero, suc, ◌-◌, ◌≡◌, refl, inl, Bool, true, false, Option, none, some, Bool-cases, inr,
  Option-cases, length, List, ltb, ◌==◌,
}
use file_system_server.EventLoop.{event_read}
use file_system_server.Os.{
  ReadResult, got, eof, eintr, eagain, failed, read_from, weight, FileSystem,
}
use file_system_server.Server.State.{
  ConnState, recv_header, recv_put_size, recv_put_data, send_ok, send_error, send_get_size,
  send_get_data, send_list_data, done, Machine, expected_size, size_len, filepath,
}
use file_system_server.Server.Put.{
  with_incoming, bad_file_size, close_upload, stored_ok, extra_checked, data_received,
  bytes_to_read, pwrite_upload, all_written, chunk_stored, recv_put_data_loop,
  recv_put_data_handler, upload_opened, size_received, size_bytes_read, recv_put_size_loop,
  recv_put_size_handler,
}
use file_system_server.Collections.Vector.{Vector}
use file_system_server.Server.Names.{add_file_to_list}
use file_system_server.Server.Names.Laws.{inserted, add_file_to_list-Stores}
use file_system_server.Server.Invariant.{
  Watches, IsListed, listed, Going, Going-files, Served, live-Served, either-Served,
}
use file_system_server.Server.Invariant.Responses.{prepare_and_send_response-Served}

-- The states in which the connection is read.
abbrev pub Receiving : ConnState → Type 0
Receiving recv_header = Unit
Receiving recv_put_size = Unit
Receiving recv_put_data = Unit
Receiving _ = ⊥

-- A live connection that is watched for reading.
abbrev pub IsOpen : {Disk : Type 0} → Machine Disk → Machine Disk → Type 0
IsOpen m0 m = (m.freed ≡ false) × (m.interest ≡ some event_read) × Going m0 m

Watches-Receiving :
    (f : Bool) (st : ConnState) (i : Option ℕ) → Receiving st → i ≡ some event_read → Watches f st i
Watches-Receiving true st i r h = tt
Watches-Receiving false recv_header i r h = h
Watches-Receiving false recv_put_size i r h = h
Watches-Receiving false recv_put_data i r h = h
Watches-Receiving false send_ok i r h = absurd r
Watches-Receiving false send_error i r h = absurd r
Watches-Receiving false send_get_size i r h = absurd r
Watches-Receiving false send_get_data i r h = absurd r
Watches-Receiving false send_list_data i r h = absurd r
Watches-Receiving false done i r h = absurd r

add_file_to_list-IsListed :
    (memory : Bool) (name : List ℕ) {v : Vector (List ℕ)}
    → memory ≡ true
    → IsListed v
    → IsListed (add_file_to_list memory v name)
add_file_to_list-IsListed true name e (listed xs s) =
    listed (inserted name xs) (add_file_to_list-Stores _ name s).0
add_file_to_list-IsListed false name e l = cc

module _ (fs : FileSystem) (m0 : Machine fs.Disk) where
  open fs use {Disk, open_write}

  pub Receiving-Served : (m : Machine Disk) → Receiving m.client.state → IsOpen m0 m → Served m0 m
  Receiving-Served m r (f, i, g) =
      live-Served fs m0 m f (Watches-Receiving m.freed m.client.state m.interest r i) g

  bad_file_size-Served : (m : Machine Disk) → IsOpen m0 m → Served m0 (bad_file_size fs m)
  bad_file_size-Served m h = prepare_and_send_response-Served fs m0 _ m (h.0, inl h.1, h.2)

  stored_ok-Served : (m : Machine Disk) → IsOpen m0 m → Served m0 (stored_ok fs m)
  stored_ok-Served m (f, i, g) =
      prepare_and_send_response-Served fs m0 _ _
        (f, inl i, Going-files fs m0 m _ g (add_file_to_list-IsListed m.memory m.client.filename))

  close_upload-IsOpen : (m : Machine Disk) → IsOpen m0 m → IsOpen m0 (close_upload fs m)
  close_upload-IsOpen m h = elim (Option-cases m.client.file_fd) [
    | inl e ↦ rw (e, close_upload) h
    | inr (f, e) ↦ rw (e, close_upload) h
  ]

  extra_checked-Served :
      (r : ReadResult) (m : Machine Disk) → IsOpen m0 m → Served m0 (extra_checked fs r m)
  unfolding extra_checked
  extra_checked-Served (got bs rest) m h = bad_file_size-Served (with_incoming rest m) h
  extra_checked-Served (eof rest) m h = stored_ok-Served (with_incoming rest m) h
  extra_checked-Served (eintr rest) m h = stored_ok-Served (with_incoming rest m) h
  extra_checked-Served (eagain rest) m h = stored_ok-Served (with_incoming rest m) h
  extra_checked-Served (failed rest) m h = stored_ok-Served (with_incoming rest m) h

  data_received-Served :
      (m : Machine Disk) → Receiving m.client.state → IsOpen m0 m → Served m0 (data_received fs m)
  unfolding data_received
  data_received-Served m r h =
      either-Served fs m0 (m.client.bytes_transferred == expected_size m.client) _ m
        (extra_checked-Served _ (close_upload fs m) (close_upload-IsOpen m h))
        (Receiving-Served m r h)

  -- One round of the loop, if the next ones keep the invariant.
  put_data_round :
      (fuel : ℕ)
      → ((m : Machine Disk)
          → Receiving m.client.state
          → IsOpen m0 m
          → Served m0 (recv_put_data_loop fs fuel m))
      → (m : Machine Disk) → Receiving m.client.state
      → IsOpen m0 m
      → ltb m.client.bytes_transferred (expected_size m.client) ≡ true
      → (x : ReadResult) → read_from (bytes_to_read fs m.client) m.socket.incoming ≡ x
      → Served m0 (recv_put_data_loop fs (suc fuel) m)
  unfolding recv_put_data_loop
  put_data_round fuel keep m r h more (got bs rest) e =
      elim (Bool-cases (all_written fs (pwrite_upload fs bs m).0 (length bs))) [
        | inl w ↦
            rw (more, e, w, recv_put_data_loop)
              (keep (chunk_stored fs bs (pwrite_upload fs bs m).1 (with_incoming rest m)) r h)
        | inr w ↦
            rw (more, e, w, recv_put_data_loop)
              (bad_file_size-Served _ (
                close_upload-IsOpen
                  (record (with_incoming rest m) { disk = (pwrite_upload fs bs m).1 }) h))
      ]
  put_data_round fuel keep m r h more (eintr rest) e =
      rw (more, e, recv_put_data_loop) (keep (with_incoming rest m) r h)
  put_data_round fuel keep m r h more (eagain rest) e =
      rw (more, e, recv_put_data_loop) (data_received-Served (with_incoming rest m) r h)
  put_data_round fuel keep m r h more (failed rest) e =
      rw (more, e, recv_put_data_loop)
        (bad_file_size-Served _ (close_upload-IsOpen (with_incoming rest m) h))
  put_data_round fuel keep m r h more (eof rest) e =
      rw (more, e, recv_put_data_loop)
        (bad_file_size-Served _ (close_upload-IsOpen (with_incoming rest m) h))

  recv_put_data_loop-Served :
      (fuel : ℕ) (m : Machine Disk)
      → Receiving m.client.state
      → IsOpen m0 m
      → Served m0 (recv_put_data_loop fs fuel m)
  unfolding recv_put_data_loop
  recv_put_data_loop-Served zero m r h = Receiving-Served m r h
  recv_put_data_loop-Served (suc fuel) m r h =
      elim (Bool-cases (ltb m.client.bytes_transferred (expected_size m.client))) [
        | inl more ↦ put_data_round fuel (recv_put_data_loop-Served fuel) m r h more _ refl
        | inr full ↦ rw (full, recv_put_data_loop) (data_received-Served m r h)
      ]

  pub recv_put_data-Served :
      (m : Machine Disk)
      → Receiving m.client.state
      → IsOpen m0 m
      → Served m0 (recv_put_data_handler fs m)
  unfolding recv_put_data_handler
  recv_put_data-Served m r h = recv_put_data_loop-Served (weight m.socket.incoming) m r h

  upload_opened-Served :
      (o : Option ℕ × Disk) (m : Machine Disk) → IsOpen m0 m → Served m0 (upload_opened fs o m)
  upload_opened-Served (none, d) m h = bad_file_size-Served _ h
  upload_opened-Served (some f, d) m h = recv_put_data-Served _ tt h

  size_received-Served : (m : Machine Disk) → IsOpen m0 m → Served m0 (size_received fs m)
  unfolding size_received
  size_received-Served m h =
      upload_opened-Served (open_write (filepath m) m.disk)
        (record m { client = record m.client { bytes_transferred = 0 } }) h

  put_size_round :
      (fuel : ℕ)
      → ((m : Machine Disk)
          → Receiving m.client.state
          → IsOpen m0 m
          → Served m0 (recv_put_size_loop fs fuel m))
      → (m : Machine Disk) → Receiving m.client.state
      → IsOpen m0 m
      → ltb m.client.bytes_transferred size_len ≡ true
      → (x : ReadResult) → read_from (size_len - m.client.bytes_transferred) m.socket.incoming ≡ x
      → Served m0 (recv_put_size_loop fs (suc fuel) m)
  unfolding recv_put_size_loop
  put_size_round fuel keep m r h more (got bs rest) e =
      rw (more, e, recv_put_size_loop) (keep (size_bytes_read fs bs (with_incoming rest m)) r h)
  put_size_round fuel keep m r h more (eintr rest) e =
      rw (more, e, recv_put_size_loop) (keep (with_incoming rest m) r h)
  put_size_round fuel keep m r h more (eagain rest) e =
      rw (more, e, recv_put_size_loop) (Receiving-Served (with_incoming rest m) r h)
  put_size_round fuel keep m r h more (failed rest) e =
      rw (more, e, recv_put_size_loop) (bad_file_size-Served (with_incoming rest m) h)
  put_size_round fuel keep m r h more (eof rest) e =
      rw (more, e, recv_put_size_loop) (bad_file_size-Served (with_incoming rest m) h)

  recv_put_size_loop-Served :
      (fuel : ℕ) (m : Machine Disk)
      → Receiving m.client.state
      → IsOpen m0 m
      → Served m0 (recv_put_size_loop fs fuel m)
  unfolding recv_put_size_loop
  recv_put_size_loop-Served zero m r h = Receiving-Served m r h
  recv_put_size_loop-Served (suc fuel) m r h =
      elim (Bool-cases (ltb m.client.bytes_transferred size_len)) [
        | inl more ↦ put_size_round fuel (recv_put_size_loop-Served fuel) m r h more _ refl
        | inr full ↦ rw (full, recv_put_size_loop) (size_received-Served m h)
      ]

  pub recv_put_size-Served :
      (m : Machine Disk)
      → Receiving m.client.state
      → IsOpen m0 m
      → Served m0 (recv_put_size_handler fs m)
  unfolding recv_put_size_handler
  recv_put_size-Served m r h = recv_put_size_loop-Served (weight m.socket.incoming) m r h
