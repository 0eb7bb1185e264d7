-- ===== src/Server/Put/Upload.antt =====
-- The loop of `recv_put_data`: which bytes it stores, for every sequence of arrivals.
use file_system_server.Base.{
  ℕ, zero, suc, ◌+◌, ◌-◌, ◌≤◌, ◌<◌, ◌≡◌, ◌≢◌, refl, sym, ap, ◌∙◌, true, false, List, [], ◌∷◌, ◌++◌,
  some, arith, length, length-append, take, drop, take-append_two, drop-append_two, append-nil,
  append_assoc, ltb, ◌==◌, ==_refl,
}
use file_system_server.Os.{
  Recv, weight, weight_pos, stream, pending, shut, failing, ending, arrived, resumed, ended, lost,
  waits, read_from_cases, FileSystem,
}
use file_system_server.Server.State.{Machine, expected_size}
use file_system_server.Server.Put.{
  bad_file_size, close_upload, data_received, bytes_to_read, recv_put_data_loop, all_written,
}

-- A file that is open for writing, with room on the disk: `pwrite` at its end appends all the bytes.
pub record Appends (fs : FileSystem) (f : ℕ) : Type 0 where
  pub content : fs.Disk → List ℕ
  pub appended :
      (bs : List ℕ) (d : fs.Disk)
      → ((fs.pwrite f bs (length (content d)) d).0 ≡ some (length bs))
        × (content (fs.pwrite f bs (length (content d)) d).1 ≡ content d ++ bs)

shut_not_pending : shut ≡ pending → ⊥
shut_not_pending e = cc

failing_not_pending : failing ≡ pending → ⊥
failing_not_pending e = cc

module _ (fs : FileSystem) (f : ℕ) (file : Appends fs f) where
  open fs use {Disk, pwrite}
  open file use {content, appended}

  -- The connection `m` with its upload to `f` at `t` bytes.
  abbrev pub uploading : Machine Disk → List Recv → Disk → ℕ → Machine Disk
  uploading m rs d t = record m {
    socket = record m.socket { incoming = rs };
    disk = d;
    client = record m.client { file_fd = some f; bytes_transferred = t };
  }

  -- What the loop comes to when `want` bytes are missing.
  pub record Receives (want : ℕ) (m : Machine Disk) (rs : List Recv) (d : Disk) (t : ℕ)
      (out : Machine Disk) : Type 0 where
    pub enough :
        want ≤ length (stream rs)
        → (rest : List Recv) × (d' : Disk) × (out
            ≡ data_received fs (uploading m rest d' (t + want)))
          × (content d' ≡ content d ++ take want (stream rs))
          × (stream rest ≡ drop want (stream rs))
          × (ending rest ≡ ending rs)
    pub short :
        length (stream rs) < want
        → ending rs ≡ pending
        → (d' : Disk) × (out ≡ uploading m [] d' (t + length (stream rs)))
          × (content d' ≡ content d ++ stream rs)
    pub cut :
        length (stream rs) < want
        → ending rs ≢ pending
        → (rest : List Recv) × (d' : Disk) × (out
            ≡ bad_file_size fs (close_upload fs (uploading m rest d' (t + length (stream rs)))))
          × (content d' ≡ content d ++ stream rs)

  pwrite_end :
      (bs : List ℕ) (d : Disk) (t : ℕ)
      → length (content d) ≡ t
      → ((pwrite f bs t d).0 ≡ some (length bs)) × (content (pwrite f bs t d).1 ≡ content d ++ bs)
  pwrite_end bs d t e = rw (← e) (appended bs d)

  Receives-arrived :
      (want : ℕ) (m : Machine Disk) (rs rest : List Recv) (d d' : Disk) (t : ℕ) (bs : List ℕ)
      (out : Machine Disk)
      → bs ++ stream rest ≡ stream rs
      → length bs ≤ want
      → ending rest ≡ ending rs
      → content d' ≡ content d ++ bs
      → Receives (want - length bs) m rest d' (t + length bs) out
      → Receives want m rs d t out
  Receives-arrived want m rs rest d d' t bs out s n same c ih = record {
    enough = λ le.
        let (rest', e', p, q, u, v) = ih.enough (omega (arith, total)) in
        (
          rest',
          e',
          p ∙ ap (λ k. data_received fs (uploading m rest' e' k)) (omega arith),
          q
              ∙ ap (λ z. z ++ take (want - length bs) (stream rest)) c
              ∙ append_assoc (content d) bs (take (want - length bs) (stream rest))
              ∙ ap (λ z. content d ++ z)
                  (sym (take-append_two (want - length bs) want bs (stream rest) (omega arith))
                    ∙ ap (take want) s),
          u
              ∙ sym (drop-append_two (want - length bs) want bs (stream rest) (omega arith))
              ∙ ap (drop want) s,
          v ∙ same,
        );
    short = λ lt x.
        let (e', p, q) = ih.short (omega (arith, total)) (same ∙ x) in
        (e', p ∙ ap (uploading m [] e') (omega (arith, total)), q ∙ all_of);
    cut = λ lt x.
        let (rest', e', p, q) = ih.cut (omega (arith, total)) (λ y. x (sym same ∙ y)) in
        (
          rest',
          e',
          p
              ∙ ap (λ k. bad_file_size fs (close_upload fs (uploading m rest' e' k)))
                  (omega (arith, total)),
          q ∙ all_of,
        );
  }
    where
      total : length bs + length (stream rest) ≡ length (stream rs)
      total = omega (arith, length-append bs (stream rest), ap length s)

      all_of : content d' ++ stream rest ≡ content d ++ stream rs
      all_of =
          ap (λ z. z ++ stream rest) c
          ∙ append_assoc (content d) bs (stream rest)
          ∙ ap (λ z. content d ++ z) s

  Receives-resumed :
      (want : ℕ) (m : Machine Disk) (rs rest : List Recv) (d : Disk) (t : ℕ) (out : Machine Disk)
      → stream rest ≡ stream rs
      → ending rest ≡ ending rs
      → Receives want m rest d t out
      → Receives want m rs d t out
  Receives-resumed want m rs rest d t out s same ih = record {
    enough = rw (← s, ← same) ih.enough;
    short = rw (← s, ← same) ih.short;
    cut = rw (← s, ← same) ih.cut;
  }

  -- The connection fails or ends in front of a byte that is missing.
  Receives-cut :
      (want : ℕ) (m : Machine Disk) (rs rest : List Recv) (d : Disk) (t : ℕ)
      → stream rs ≡ []
      → ending rs ≢ pending
      → 0 < want
      → Receives want m rs d t (bad_file_size fs (close_upload fs (uploading m rest d t)))
  Receives-cut want m rs rest d t s x h = record {
    enough = λ le. absurd (omega (arith, ap length s));
    short = λ lt y. absurd (x y);
    cut = λ lt y. (
      rest,
      d,
      ap (λ k. bad_file_size fs (close_upload fs (uploading m rest d k)))
          (omega (arith, ap length s)),
      rw (s, append-nil),
    );
  }

  -- No byte more has arrived.
  Receives-waits :
      (want : ℕ) (m : Machine Disk) (rs : List Recv) (d : Disk) (t : ℕ)
      → rs ≡ []
      → 0 < want
      → Receives want m rs d t (uploading m [] d t)
  Receives-waits want m rs d t s h = rw s (record {
    enough = λ le. absurd (omega arith);
    short = λ lt y. (d, ap (uploading m [] d) (omega arith), sym (append-nil (content d)));
    cut = λ lt y. absurd (y refl);
  })

  pub recv_put_data_loop-Receives :
      (fuel want : ℕ) (m : Machine Disk) (rs : List Recv) (d : Disk) (t : ℕ)
      → weight rs ≤ fuel
      → length (content d) ≡ t
      → t + want ≡ expected_size m.client
      → Receives want m rs d t (recv_put_data_loop fs fuel (uploading m rs d t))
  unfolding recv_put_data_loop
  recv_put_data_loop-Receives zero want m rs d t w c e = absurd (omega (arith, weight_pos rs))
  recv_put_data_loop-Receives (suc fuel) zero m rs d t w c e =
      let full : ltb t (expected_size m.client) ≡ false = ground arith in
      rw (full, recv_put_data_loop)
        (record {
          enough = λ le. (
            rs,
            d,
            ap (λ k. data_received fs (uploading m rs d k)) (omega arith),
            sym (append-nil (content d)),
            refl,
            refl,
          );
          short = λ lt x. absurd (omega arith);
          cut = λ lt x. absurd (omega arith);
        })
  recv_put_data_loop-Receives (suc fuel) (suc want) m rs d t w c e =
      let short : ltb t (expected_size m.client) ≡ true = ground arith in
      let not_full : (t == expected_size m.client) ≡ false = ground arith in
      let n : ℕ = bytes_to_read fs (record m.client { bytes_transferred = t }) in
      let small : n ≤ suc want = ground arith in
      let some_bytes : 0 < n = ground arith in
      rw (short, recv_put_data_loop)
        (elim (read_from_cases n rs some_bytes) [
          | arrived b bs rest r s le less same ↦
              rw (r, recv_put_data_loop)
                (rw
                  (ap (λ o. all_written fs o (suc (length bs))) (pwrite_end (b ∷ bs) d t c).0
                    ∙ ==_refl (suc (length bs)))
                  (Receives-arrived (suc want) m rs rest d (pwrite f (b ∷ bs) t d).1 t (b ∷ bs) _ s
                    (omega arith) same (pwrite_end (b ∷ bs) d t c).1
                    (recv_put_data_loop-Receives fuel (suc want - suc (length bs)) m rest
                      (pwrite f (b ∷ bs) t d).1 (t + suc (length bs)) (omega arith)
                      (omega (
                        arith,
                        ap length (pwrite_end (b ∷ bs) d t c).1,
                        length-append (content d) (b ∷ bs),
                      ))
                      (omega arith))))
          | resumed rest r s less same ↦
              rw (r, recv_put_data_loop)
                (Receives-resumed (suc want) m rs rest d t _ s same
                  (recv_put_data_loop-Receives fuel (suc want) m rest d t (omega arith) c e))
          | ended r s x ↦
              rw (r, recv_put_data_loop)
                (Receives-cut (suc want) m rs rs d t s (λ y. shut_not_pending (sym x ∙ y))
                  (omega arith))
          | lost rest r s x ↦
              rw (r, recv_put_data_loop)
                (Receives-cut (suc want) m rs rest d t s (λ y. failing_not_pending (sym x ∙ y))
                  (omega arith))
          | waits r s ↦
              rw (r, recv_put_data_loop)
                (rw (not_full, data_received) (Receives-waits (suc want) m rs d t s (omega arith)))
        ])
