-- ===== src/Server/Put/Rounds.antt =====
-- The loops of an upload as sequences of rounds, without fuel.
use file_system_server.Base.{
  ℕ, zero, suc, ◌+◌, ◌-◌, ◌≤◌, ◌<◌, ◌≡◌, ◌↔◌, refl, sym, subst, ◌∙◌, [], ◌∷◌, Bool, true, false,
  List, arith, length, ltb, ltb→lt, Bool-cases, inl, inr,
}
use file_system_server.Os.{
  Recv, got, eof, eintr, eagain, failed, read_from, weight, weight_pos, arrived, resumed, ended,
  lost, waits, read_from_cases, FileSystem,
}
use file_system_server.Server.State.{Machine, expected_size, size_len}
use file_system_server.Server.Put.{
  with_incoming, bad_file_size, close_upload, data_received, chunk_stored, bytes_to_read,
  pwrite_upload, all_written, recv_put_data_loop, recv_put_data_handler, size_received,
  size_bytes_read, recv_put_size_loop, recv_put_size_handler,
}
use file_system_server.Server.Put.Fuel.{some_bytes, data_loop-fuel, size_loop-fuel}

module _ (fs : FileSystem) where
  open fs use {Disk}

  -- The test of the loop of `recv_put_data`, and what its read returns.
  abbrev data_missing : Machine Disk → Bool
  data_missing m = ltb m.client.bytes_transferred (expected_size m.client)

  -- `while (client->bytes_transferred < client->expected_size)`: a constructor for each way through a
  -- round and each way out of the loop.
  pub data DataRun : Machine Disk → Machine Disk → Type 0 where
    data_complete : (m : Machine Disk) → data_missing m ≡ false → DataRun m (data_received fs m)
    data_chunk :
        (m out : Machine Disk) (bs : List ℕ) (rest : List Recv)
        → data_missing m ≡ true
        → read_from (bytes_to_read fs m.client) m.socket.incoming ≡ got bs rest
        → all_written fs (pwrite_upload fs bs m).0 (length bs) ≡ true
        → DataRun (chunk_stored fs bs (pwrite_upload fs bs m).1 (with_incoming rest m)) out
        → DataRun m out
    data_not_written :
        (m : Machine Disk) (bs : List ℕ) (rest : List Recv)
        → data_missing m ≡ true
        → read_from (bytes_to_read fs m.client) m.socket.incoming ≡ got bs rest
        → all_written fs (pwrite_upload fs bs m).0 (length bs) ≡ false
        → DataRun m (
            bad_file_size fs (
              close_upload fs (record (with_incoming rest m) { disk = (pwrite_upload fs bs m).1 })))
    data_interrupted :
        (m out : Machine Disk) (rest : List Recv)
        → data_missing m ≡ true
        → read_from (bytes_to_read fs m.client) m.socket.incoming ≡ eintr rest
        → DataRun (with_incoming rest m) out
        → DataRun m out
    data_blocked :
        (m : Machine Disk) (rest : List Recv)
        → data_missing m ≡ true
        → read_from (bytes_to_read fs m.client) m.socket.incoming ≡ eagain rest
        → DataRun m (data_received fs (with_incoming rest m))
    data_failed :
        (m : Machine Disk) (rest : List Recv)
        → data_missing m ≡ true
        → read_from (bytes_to_read fs m.client) m.socket.incoming ≡ failed rest
        → DataRun m (bad_file_size fs (close_upload fs (with_incoming rest m)))
    data_closed :
        (m : Machine Disk) (rest : List Recv)
        → data_missing m ≡ true
        → read_from (bytes_to_read fs m.client) m.socket.incoming ≡ eof rest
        → DataRun m (bad_file_size fs (close_upload fs (with_incoming rest m)))

  abbrev size_missing : Machine Disk → Bool
  size_missing m = ltb m.client.bytes_transferred size_len

  -- `while (client->bytes_transferred < size_len)`, with what follows the loop.
  pub data SizeRun : Machine Disk → Machine Disk → Type 0 where
    size_complete : (m : Machine Disk) → size_missing m ≡ false → SizeRun m (size_received fs m)
    size_bytes :
        (m out : Machine Disk) (bs : List ℕ) (rest : List Recv)
        → size_missing m ≡ true
        → read_from (size_len - m.client.bytes_transferred) m.socket.incoming ≡ got bs rest
        → SizeRun (size_bytes_read fs bs (with_incoming rest m)) out
        → SizeRun m out
    size_interrupted :
        (m out : Machine Disk) (rest : List Recv)
        → size_missing m ≡ true
        → read_from (size_len - m.client.bytes_transferred) m.socket.incoming ≡ eintr rest
        → SizeRun (with_incoming rest m) out
        → SizeRun m out
    size_blocked :
        (m : Machine Disk) (rest : List Recv)
        → size_missing m ≡ true
        → read_from (size_len - m.client.bytes_transferred) m.socket.incoming ≡ eagain rest
        → SizeRun m (with_incoming rest m)
    size_failed :
        (m : Machine Disk) (rest : List Recv)
        → size_missing m ≡ true
        → read_from (size_len - m.client.bytes_transferred) m.socket.incoming ≡ failed rest
        → SizeRun m (bad_file_size fs (with_incoming rest m))
    size_closed :
        (m : Machine Disk) (rest : List Recv)
        → size_missing m ≡ true
        → read_from (size_len - m.client.bytes_transferred) m.socket.incoming ≡ eof rest
        → SizeRun m (bad_file_size fs (with_incoming rest m))

  -- Fuel for the arrivals is enough to come to the end of the loop.
  data_loop-DataRun :
      (f : ℕ) (m : Machine Disk)
      → weight m.socket.incoming ≤ f
      → DataRun m (recv_put_data_loop fs f m)
  unfolding recv_put_data_loop
  data_loop-DataRun zero m w = absurd (omega (arith, weight_pos m.socket.incoming))
  data_loop-DataRun (suc f) m w = elim (Bool-cases (data_missing m)) [
    | inr full ↦ rw (full, recv_put_data_loop) (data_complete m full)
    | inl more ↦
        rw (more, recv_put_data_loop)
          (elim (read_from_cases (bytes_to_read fs m.client) m.socket.incoming
            (some_bytes fs m (ltb→lt m.client.bytes_transferred (expected_size m.client) more))) [
              | arrived b bs rest r s le less same ↦
                  elim (Bool-cases
                    (all_written fs (pwrite_upload fs (b ∷ bs) m).0 (suc (length bs)))) [
                      | inl all ↦
                          rw (r, recv_put_data_loop, all)
                            (data_chunk m _ (b ∷ bs) rest more r all
                              (data_loop-DataRun f _ (omega arith)))
                      | inr part ↦
                          rw (r, recv_put_data_loop, part)
                            (data_not_written m (b ∷ bs) rest more r part)
                    ]
              | resumed rest r s less same ↦
                  rw (r, recv_put_data_loop)
                    (data_interrupted m _ rest more r
                      (data_loop-DataRun f (with_incoming rest m) (omega arith)))
              | ended r s x ↦ rw (r, recv_put_data_loop) (data_closed m m.socket.incoming more r)
              | lost rest r s x ↦ rw (r, recv_put_data_loop) (data_failed m rest more r)
              | waits r s ↦ rw (r, recv_put_data_loop) (data_blocked m [] more r)
            ])
  ]

  size_loop-SizeRun :
      (f : ℕ) (m : Machine Disk)
      → weight m.socket.incoming ≤ f
      → SizeRun m (recv_put_size_loop fs f m)
  unfolding recv_put_size_loop
  size_loop-SizeRun zero m w = absurd (omega (arith, weight_pos m.socket.incoming))
  size_loop-SizeRun (suc f) m w = elim (Bool-cases (size_missing m)) [
    | inr full ↦ rw (full, recv_put_size_loop) (size_complete m full)
    | inl more ↦
        let lt = ltb→lt m.client.bytes_transferred size_len more in
        rw (more, recv_put_size_loop)
          (elim (read_from_cases (size_len - m.client.bytes_transferred) m.socket.incoming
            (omega arith)) [
              | arrived b bs rest r s le less same ↦
                  rw (r, recv_put_size_loop)
                    (size_bytes m _ (b ∷ bs) rest more r (size_loop-SizeRun f _ (omega arith)))
              | resumed rest r s less same ↦
                  rw (r, recv_put_size_loop)
                    (size_interrupted m _ rest more r
                      (size_loop-SizeRun f (with_incoming rest m) (omega arith)))
              | ended r s x ↦ rw (r, recv_put_size_loop) (size_closed m m.socket.incoming more r)
              | lost rest r s x ↦ rw (r, recv_put_size_loop) (size_failed m rest more r)
              | waits r s ↦ rw (r, recv_put_size_loop) (size_blocked m [] more r)
            ])
  ]

  -- The rounds of a run behind its first.
  more_rounds : {m out : Machine Disk} → DataRun m out → ℕ
  more_rounds (data_chunk m out bs rest more r all run) = suc (more_rounds run)
  more_rounds (data_interrupted m out rest more r run) = suc (more_rounds run)
  more_rounds _ = zero

  more_size_rounds : {m out : Machine Disk} → SizeRun m out → ℕ
  more_size_rounds (size_bytes m out bs rest more r run) = suc (more_size_rounds run)
  more_size_rounds (size_interrupted m out rest more r run) = suc (more_size_rounds run)
  more_size_rounds _ = zero

  -- With fuel for its rounds, the loop comes to the end of the run.
  DataRun-data_loop :
      (f : ℕ) {m out : Machine Disk} (run : DataRun m out)
      → more_rounds run < f
      → recv_put_data_loop fs f m ≡ out
  unfolding recv_put_data_loop more_rounds
  DataRun-data_loop zero run lt = absurd (omega arith)
  DataRun-data_loop (suc f) (data_complete m full) lt = rw (full, recv_put_data_loop) refl
  DataRun-data_loop (suc f) (data_chunk m out bs rest more r all run) lt =
      rw (more, recv_put_data_loop, r, all) (DataRun-data_loop f run (omega arith))
  DataRun-data_loop (suc f) (data_not_written m bs rest more r part) lt =
      rw (more, recv_put_data_loop, r, part) refl
  DataRun-data_loop (suc f) (data_interrupted m out rest more r run) lt =
      rw (more, recv_put_data_loop, r) (DataRun-data_loop f run (omega arith))
  DataRun-data_loop (suc f) (data_blocked m rest more r) lt = rw (more, recv_put_data_loop, r) refl
  DataRun-data_loop (suc f) (data_failed m rest more r) lt = rw (more, recv_put_data_loop, r) refl
  DataRun-data_loop (suc f) (data_closed m rest more r) lt = rw (more, recv_put_data_loop, r) refl

  SizeRun-size_loop :
      (f : ℕ) {m out : Machine Disk} (run : SizeRun m out)
      → more_size_rounds run < f
      → recv_put_size_loop fs f m ≡ out
  unfolding recv_put_size_loop more_size_rounds
  SizeRun-size_loop zero run lt = absurd (omega arith)
  SizeRun-size_loop (suc f) (size_complete m full) lt = rw (full, recv_put_size_loop) refl
  SizeRun-size_loop (suc f) (size_bytes m out bs rest more r run) lt =
      rw (more, recv_put_size_loop, r) (SizeRun-size_loop f run (omega arith))
  SizeRun-size_loop (suc f) (size_interrupted m out rest more r run) lt =
      rw (more, recv_put_size_loop, r) (SizeRun-size_loop f run (omega arith))
  SizeRun-size_loop (suc f) (size_blocked m rest more r) lt = rw (more, recv_put_size_loop, r) refl
  SizeRun-size_loop (suc f) (size_failed m rest more r) lt = rw (more, recv_put_size_loop, r) refl
  SizeRun-size_loop (suc f) (size_closed m rest more r) lt = rw (more, recv_put_size_loop, r) refl

  -- For any state of an upload, file system and arrivals: the loop for the size and the loop for the
  -- data, as finite sequences of rounds up to a way out of the loop, each have an end, have only one,
  -- and it is what the handler gives.
  pub put_loops-end :
      (m out : Machine Disk)
      → (SizeRun m out ↔ (out ≡ recv_put_size_handler fs m))
        × (DataRun m out ↔ (out ≡ recv_put_data_handler fs m))
  unfolding recv_put_size_handler recv_put_data_handler
  put_loops-end m out =
      let enough : ℕ = weight m.socket.incoming in
      (
        (
          (λ run.
              sym (SizeRun-size_loop (more_size_rounds run + suc enough) run (omega arith))
              ∙ size_loop-fuel fs (more_size_rounds run + suc enough) enough m (omega arith)
                  (omega arith)),
          λ e. subst (SizeRun m) (sym e) (size_loop-SizeRun enough m (omega arith)),
        ),
        (
          (λ run.
              sym (DataRun-data_loop (more_rounds run + suc enough) run (omega arith))
              ∙ data_loop-fuel fs (more_rounds run + suc enough) enough m (omega arith)
                  (omega arith)),
          λ e. subst (DataRun m) (sym e) (data_loop-DataRun enough m (omega arith)),
        ),
      )
