-- ===== src/Server/Put/Outcome.antt =====
-- What an upload comes to: the file, the list of names and the response.
use file_system_server.Base.{
  ℕ, ◌+◌, ◌-◌, ◌≤◌, ◌<◌, ◌≡◌, ◌≢◌, refl, sym, subst, ap, ◌∙◌, true, List, [], ◌∷◌, ◌++◌, none, some,
  arith, length, take_all, drop_all, ==_refl,
}
use file_system_server.Common.{put}
use file_system_server.Format.{err_bad_file_size}
use file_system_server.Os.{
  Recv, Send, accepts, read_from, weight, stream, pending, ending, arrived, resumed, ended, lost,
  waits, read_from_cases, FileSystem,
}
use file_system_server.Server.State.{Machine, expected_size}
use file_system_server.Server.Response.{error, status_text}
use file_system_server.Server.Response.Delivery.{error_response_whole}
use file_system_server.Server.Put.{
  with_incoming, stored_ok, close_upload, extra_checked, data_received, recv_put_data_loop,
  recv_put_data_handler,
}
use file_system_server.Server.Names.Laws.{Stores}
use file_system_server.Server.Put.Stored.{IsAccepted, IsStored-IsAccepted, stored_ok-IsStored}
use file_system_server.Server.Put.Upload.{Appends, uploading, Receives, recv_put_data_loop-Receives}

module _ (fs : FileSystem) (f : ℕ) (file : Appends fs f) where
  open fs use {Disk, close_file}
  open file use {content}

  -- The connection behind an upload that is complete, its file closed.
  abbrev pub uploaded : Machine Disk → List Recv → Disk → Machine Disk
  uploaded m rest d = record m {
    socket = record m.socket { incoming = rest };
    disk = close_file f d;
    client = record m.client { file_fd = none; bytes_transferred = expected_size m.client };
  }

  extra_none :
      (m : Machine Disk) (rs : List Recv)
      → stream rs ≡ []
      → (rest : List Recv) × (extra_checked fs (read_from 1 rs) m
          ≡ stored_ok fs (with_incoming rest m))
  unfolding extra_checked
  extra_none m rs s = elim (read_from_cases 1 rs (omega arith)) [
    | arrived b bs rest r x le less same ↦ absurd (omega (arith, ap length (x ∙ s)))
    | resumed rest r x less same ↦ (rest, rw (r, extra_checked))
    | ended r x y ↦ (rs, rw (r, extra_checked))
    | lost rest r x y ↦ (rest, rw (r, extra_checked))
    | waits r x ↦ ([], rw (r, extra_checked))
  ]

  pub handler-Receives :
      (m : Machine Disk) (want : ℕ)
      → m.client.file_fd ≡ some f
      → length (content m.disk) ≡ m.client.bytes_transferred
      → m.client.bytes_transferred + want ≡ expected_size m.client
      → Receives fs f file want m m.socket.incoming m.disk m.client.bytes_transferred
          (recv_put_data_handler fs m)
  unfolding recv_put_data_handler
  handler-Receives m want hf c e =
      subst
        (λ o. Receives fs f file want m m.socket.incoming m.disk m.client.bytes_transferred (
          recv_put_data_loop fs (weight m.socket.incoming)
            (record m { client = record m.client { file_fd = o } })))
        (sym hf)
        (recv_put_data_loop-Receives fs f file (weight m.socket.incoming) want m m.socket.incoming
          m.disk m.client.bytes_transferred (omega arith) c e)

  pub received-full :
      (m : Machine Disk) (rest : List Recv) (d : Disk) (t : ℕ)
      → t ≡ expected_size m.client
      → data_received fs (uploading fs f file m rest d t)
        ≡ extra_checked fs (read_from 1 rest) (uploaded m rest d)
  unfolding data_received
  received-full m rest d t e = rw (e, ==_refl (expected_size m.client))

  -- All the missing bytes and no other arrive.
  pub recv_put_data_full :
      (m : Machine Disk)
      → m.client.file_fd ≡ some f
      → length (content m.disk) ≡ m.client.bytes_transferred
      → m.client.bytes_transferred + length (stream m.socket.incoming) ≡ expected_size m.client
      → (rest : List Recv) × (d : Disk) × (recv_put_data_handler fs m
          ≡ stored_ok fs (uploaded m rest d))
        × (content d ≡ content m.disk ++ stream m.socket.incoming)
  recv_put_data_full m hf c e =
      let arrives : List ℕ = stream m.socket.incoming in
      let (rest, d, p, q, u, v) =
        (handler-Receives m (length arrives) hf c e).enough (omega arith) in
      let (rest', x) =
        extra_none (uploaded m rest d) rest (u ∙ drop_all (length arrives) arrives (omega arith)) in
      (
        rest',
        d,
        p ∙ received-full m rest d _ e ∙ x,
        q ∙ ap (λ z. content m.disk ++ z) (take_all (length arrives) arrives (omega arith)),
      )

  -- For a PUT whose file takes what is appended and holds the bytes that are counted, with memory and a
  -- list that has each name once: if exactly the bytes that are missing arrive, however they are cut and
  -- whatever calls are interrupted, and the socket takes the answer at once, then the handler closes
  -- the file, which has its old contents and then these bytes, sends `OK` and nothing else, and closes
  -- the connection; the list keeps the order of the old names, with the name of the upload at its end
  -- if it was not there.
  pub recv_put_data_exact :
      (m : Machine Disk) (k : ℕ) (outs : List Send) (xs : List (List ℕ))
      → m.client.request_verb ≡ put
      → m.client.file_fd ≡ some f
      → length (content m.disk) ≡ m.client.bytes_transferred
      → m.client.bytes_transferred + length (stream m.socket.incoming) ≡ expected_size m.client
      → m.socket.outcomes ≡ accepts k ∷ outs
      → 3 ≤ k
      → m.memory ≡ true
      → Stores m.server_files xs
      → (d : Disk) × IsAccepted fs m.client.filename xs m
          (close_file f d)
          (recv_put_data_handler fs m)
        × (content d ≡ content m.disk ++ stream m.socket.incoming)
  recv_put_data_exact m k outs xs v hf c e o le room h =
      let (rest, d, out, is) = recv_put_data_full m hf c e in
      let end = stored_ok-IsStored fs (uploaded m rest d) k outs v refl o le in
      (
        d,
        subst (IsAccepted fs m.client.filename xs m (close_file f d)) (sym out) (
            IsStored-IsAccepted fs m.client.filename xs m (close_file f d) _ room h (record {
              closed = end.closed;
              disk = end.disk;
              answered = end.answered;
              names = end.names;
            })),
        is,
      )

  -- For an upload whose file takes what is appended and holds the bytes that are counted: if fewer
  -- bytes arrive than are missing and more may come, they are stored and counted, nothing is left to
  -- read, and the connection stays in its state, watched as before, with its file open.
  pub recv_put_data_waits :
      (m : Machine Disk)
      → m.client.file_fd ≡ some f
      → length (content m.disk) ≡ m.client.bytes_transferred
      → m.client.bytes_transferred + length (stream m.socket.incoming) < expected_size m.client
      → ending m.socket.incoming ≡ pending
      → let m' = recv_put_data_handler fs m in
        (content m'.disk ≡ content m.disk ++ stream m.socket.incoming)
        × (m'.client.bytes_transferred
            ≡ m.client.bytes_transferred + length (stream m.socket.incoming))
        × (m'.client.state ≡ m.client.state)
        × (m'.client.file_fd ≡ some f)
        × (m'.socket.incoming ≡ [])
        × (m'.freed ≡ m.freed)
        × (m'.interest ≡ m.interest)
        × (m'.server_files ≡ m.server_files)
  recv_put_data_waits m hf c lt x =
      let want : ℕ = expected_size m.client - m.client.bytes_transferred in
      let (d, p, q) = (handler-Receives m want hf c (omega arith)).short (omega arith) x in
      rw p (q, refl, refl, refl, refl, refl, refl, refl)

  -- For an upload whose file takes what is appended and holds the bytes that are counted: if the
  -- connection ends or fails in front of the last byte, and the socket takes the whole error response,
  -- the response is sent, the connection is closed, and the file is closed with what has arrived and
  -- not unlinked; the list of names is unchanged.
  pub recv_put_data_cut :
      (m : Machine Disk) (k : ℕ) (outs : List Send)
      → m.client.file_fd ≡ some f
      → length (content m.disk) ≡ m.client.bytes_transferred
      → m.client.bytes_transferred + length (stream m.socket.incoming) < expected_size m.client
      → ending m.socket.incoming ≢ pending
      → m.socket.outcomes ≡ accepts k ∷ outs
      → length (status_text (error err_bad_file_size)) ≤ k
      → let m' = recv_put_data_handler fs m in
        (d : Disk) × (m'.disk ≡ close_file f d)
        × (content d ≡ content m.disk ++ stream m.socket.incoming)
        × (m'.freed ≡ true)
        × (m'.socket.sent ≡ m.socket.sent ++ status_text (error err_bad_file_size))
        × (m'.server_files ≡ m.server_files)
  recv_put_data_cut m k outs hf c lt x o le =
      let want : ℕ = expected_size m.client - m.client.bytes_transferred in
      let (rest, d, p, q) = (handler-Receives m want hf c (omega arith)).cut (omega arith) x in
      let (gone, sent, disk, files) =
        error_response_whole fs err_bad_file_size (close_upload fs (uploading fs f file m rest d _))
          k outs (omega arith) o le in
      (d, rw p disk, q, rw p gone, rw p sent, rw p files)
