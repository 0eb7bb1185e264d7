-- ===== src/Server/Invariant/Requests.antt =====
-- A deletion and the request line keep the invariant.
use file_system_server.Base.{
  ltb→lt, length-append, length-take, arith, ℕ, zero, suc, ◌-◌, ◌≡◌, refl, inl, inr, Bool, true,
  false, List, [], ◌∷◌, Option, none, some, Bool-cases, Option-cases, length, leb, ltb, ◌==◌,
  split_at, c_string, newline,
}
use file_system_server.Common.{Verb, get, put, delete, list, v_unknown}
use file_system_server.Os.{ReadResult, got, eof, eintr, eagain, failed, read_from, FileSystem}
use file_system_server.Collections.Vector.{Vector}
use file_system_server.Server.Names.{remove_file_from_list}
use file_system_server.Server.Names.Laws.{removed, remove_file_from_list-Stores}
use file_system_server.Server.Invariant.Downloads.{start_send_get-Served}
use file_system_server.Server.State.{Machine, filepath, max_header_len}
use file_system_server.Server.Names.{index_of}
use file_system_server.Server.Put.{with_incoming}
use file_system_server.Server.Delete.{unlinked, delete_request}
use file_system_server.Server.Header.{
  split_line, parse_verb, start_request, parse_header_and_transition, header_byte, header_full,
  recv_header_loop, set_filename, set_verb, start_put,
}
use file_system_server.Server.Invariant.{
  IsListed, listed, Going-client, Going-files, Served, IsLive, either-Served, closed-Served,
}
use file_system_server.Server.Invariant.Responses.{prepare_and_send_response-Served}
use file_system_server.Server.Invariant.Uploads.{Receiving, IsOpen, Receiving-Served}

remove_file_from_list-IsListed :
    (name : List ℕ) {v : Vector (List ℕ)} → IsListed v → IsListed (remove_file_from_list v name)
remove_file_from_list-IsListed name (listed xs s) =
    listed (removed name xs) (remove_file_from_list-Stores _ name s).0

module _ (fs : FileSystem) (m0 : Machine fs.Disk) where
  open fs use {Disk, open_read, fstat_size, unlink}

  unlinked-Served : (o : Bool × Disk) (m : Machine Disk) → IsLive m0 m → Served m0 (unlinked fs o m)
  unlinked-Served (true, d) m (f, i, g) = prepare_and_send_response-Served fs m0 _ _ (
    f,
    i,
    Going-files fs m0 (record m { disk = d }) _ g
        (λ memory. remove_file_from_list-IsListed m.client.filename),
  )
  unlinked-Served (false, d) m h = prepare_and_send_response-Served fs m0 _ _ h

  delete_request-Served : (m : Machine Disk) → IsLive m0 m → Served m0 (delete_request fs m)
  unfolding delete_request
  delete_request-Served m h = elim (Option-cases (index_of m.server_files m.client.filename)) [
    | inl e ↦ rw (e, delete_request) (prepare_and_send_response-Served fs m0 _ m h)
    | inr (i, e) ↦ rw (e, delete_request) (unlinked-Served (unlink (filepath m) m.disk) m h)
  ]

  set_filename-IsLive :
      (v : Verb) (name : List ℕ) (m : Machine Disk)
      → IsLive m0 m
      → IsLive m0 (set_filename name (set_verb v m))
  set_filename-IsLive v name m (f, i, g) = (
    f,
    i,
    Going-client fs m0 m (set_filename name (set_verb v m)).client g refl
        (λ (h, n, r). (h, omega (arith, length-take 255 name), r)),
  )

  start_request-Served :
      (v : Verb) (o : Option (List ℕ)) (m : Machine Disk)
      → IsLive m0 m
      → Served m0 (start_request fs v o m)
  unfolding start_request
  start_request-Served list none m h = prepare_and_send_response-Served fs m0 _ _ h
  start_request-Served list (some name) m h = prepare_and_send_response-Served fs m0 _ _ h
  start_request-Served delete none m h = prepare_and_send_response-Served fs m0 _ _ h
  start_request-Served delete (some name) m h =
      delete_request-Served (set_filename name (set_verb delete m))
        (set_filename-IsLive delete name m h)
  start_request-Served get none m h = prepare_and_send_response-Served fs m0 _ _ h
  start_request-Served get (some name) m h =
      start_send_get-Served fs m0 (set_filename name (set_verb get m))
        (set_filename-IsLive get name m h)
  start_request-Served put none m h = prepare_and_send_response-Served fs m0 _ _ h
  start_request-Served put (some name) m h =
      Receiving-Served fs m0 (start_put fs name (set_verb put m)) tt
        (h.0, refl, (set_filename-IsLive put name m h).2)
  start_request-Served v_unknown o m h = prepare_and_send_response-Served fs m0 _ m h

  parse_header-Served :
      (m : Machine Disk)
      → Receiving m.client.state
      → IsOpen m0 m
      → Served m0 (parse_header_and_transition fs m)
  unfolding parse_header_and_transition
  parse_header-Served m r h =
      elim (Option-cases (split_at newline (c_string m.client.header_buf))) [
        | inl e ↦ rw (e, parse_header_and_transition) (Receiving-Served fs m0 m r h)
        | inr ((line, rest), e) ↦
            rw (e, parse_header_and_transition)
              (start_request-Served (parse_verb (split_line line).0) (split_line line).1 m
                (h.0, inl h.1, h.2))
      ]

  header_byte-IsOpen :
      (c : ℕ) (m : Machine Disk)
      → ltb (length m.client.header_buf) (max_header_len - 1) ≡ true
      → IsOpen m0 m
      → IsOpen m0 (header_byte fs c m)
  header_byte-IsOpen c m more (f, i, g) = (
    f,
    i,
    Going-client fs m0 m (header_byte fs c m).client g refl (λ (h, n, r). (
      omega (
        arith,
        ltb→lt (length m.client.header_buf) (max_header_len - 1) more,
        length-append m.client.header_buf (c ∷ []),
      ),
      n,
      r,
    )),
  )

  header_full-Served :
      (m : Machine Disk) → Receiving m.client.state → IsOpen m0 m → Served m0 (header_full fs m)
  header_full-Served m r h =
      either-Served fs m0 (leb (max_header_len - 1) (length m.client.header_buf)) _ m
        (prepare_and_send_response-Served fs m0 _ m (h.0, inl h.1, h.2))
        (Receiving-Served fs m0 m r h)

  header_round :
      (fuel : ℕ)
      → ((m : Machine Disk)
          → Receiving m.client.state
          → IsOpen m0 m
          → Served m0 (recv_header_loop fs fuel m))
      → (m : Machine Disk) → Receiving m.client.state
      → IsOpen m0 m
      → ltb (length m.client.header_buf) (max_header_len - 1) ≡ true
      → (x : ReadResult) → read_from 1 m.socket.incoming ≡ x
      → Served m0 (recv_header_loop fs (suc fuel) m)
  unfolding recv_header_loop
  header_round fuel keep m r h more (got [] rest) e =
      rw (more, e, recv_header_loop) (Receiving-Served fs m0 m r h)
  header_round fuel keep m r h more (got (c ∷ cs) rest) e = elim (Bool-cases (c == newline)) [
    | inl x ↦
        rw (more, e, x, recv_header_loop)
          (parse_header-Served (header_byte fs c (with_incoming rest m)) r
            (header_byte-IsOpen c (with_incoming rest m) more h))
    | inr x ↦
        rw (more, e, x, recv_header_loop)
          (keep (header_byte fs c (with_incoming rest m)) r
            (header_byte-IsOpen c (with_incoming rest m) more h))
  ]
  header_round fuel keep m r h more (eintr rest) e =
      rw (more, e, recv_header_loop) (keep (with_incoming rest m) r h)
  header_round fuel keep m r h more (eagain rest) e =
      rw (more, e, recv_header_loop) (header_full-Served (with_incoming rest m) r h)
  header_round fuel keep m r h more (failed rest) e =
      rw (more, e, recv_header_loop) (closed-Served fs m0 _ h.2)
  header_round fuel keep m r h more (eof rest) e =
      rw (more, e, recv_header_loop) (closed-Served fs m0 _ h.2)

  pub recv_header_loop-Served :
      (fuel : ℕ) (m : Machine Disk)
      → Receiving m.client.state
      → IsOpen m0 m
      → Served m0 (recv_header_loop fs fuel m)
  unfolding recv_header_loop
  recv_header_loop-Served zero m r h = Receiving-Served fs m0 m r h
  recv_header_loop-Served (suc fuel) m r h =
      elim (Bool-cases (ltb (length m.client.header_buf) (max_header_len - 1))) [
        | inl more ↦ header_round fuel (recv_header_loop-Served fuel) m r h more _ refl
        | inr full ↦ rw (full, recv_header_loop) (header_full-Served m r h)
      ]
