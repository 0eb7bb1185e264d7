-- ===== src/Server/Put/Size.antt =====
-- The size in front of an upload: `recv_put_size`, for every way in which its eight bytes arrive.
use file_system_server.Base.{
  ℕ, zero, suc, ◌+◌, ◌-◌, ◌^◌, ◌≤◌, ◌<◌, ◌≡◌, refl, sym, subst, ap, ◌∙◌, true, false, List, [], ◌∷◌,
  ◌++◌, none, some, arith, length, length-append, length-drop, take, drop, take-append, drop-append,
  take-append_two, drop-append_two, append_assoc, ltb, set_range, set_range-append, to_bytes,
  length-to_bytes, from_bytes-to_bytes,
}
use file_system_server.Os.{
  Recv, weight, weight_pos, stream, ending, arrived, resumed, ended, lost, waits, read_from_cases,
  FileSystem,
}
use file_system_server.Server.State.{recv_put_data, Machine, size_len, filepath, expected_size}
use file_system_server.Server.Put.{
  upload_opened, size_received, recv_put_size_loop, recv_put_size_handler, stored_ok,
}
use file_system_server.Server.Put.Upload.{Appends}
use file_system_server.Server.Put.Outcome.{recv_put_data_full}

module _ (fs : FileSystem) where
  open fs use {Disk, open_write}

  -- The connection with these bytes of the size, and these arrivals.
  abbrev pub sizing : Machine Disk → List Recv → List ℕ → ℕ → Machine Disk
  sizing m rs buf t = record m {
    socket = record m.socket { incoming = rs };
    client = record m.client { size_buf = buf; bytes_transferred = t };
  }

  pub record SizeRead (want : ℕ) (m : Machine Disk) (known : List ℕ) (rs : List Recv)
      (out : Machine Disk) : Type 0 where
    pub rest : List Recv
    pub result : out ≡ size_received fs (sizing m rest (known ++ take want (stream rs)) size_len)
    pub left : stream rest ≡ drop want (stream rs)
    pub ends : ending rest ≡ ending rs

  SizeRead-arrived :
      (want : ℕ) (m : Machine Disk) (known bs : List ℕ) (rs rest : List Recv) (out : Machine Disk)
      → bs ++ stream rest ≡ stream rs
      → length bs ≤ want
      → ending rest ≡ ending rs
      → SizeRead (want - length bs) m (known ++ bs) rest out
      → SizeRead want m known rs out
  SizeRead-arrived want m known bs rs rest out s n same ih = record {
    rest = ih.rest;
    result =
        ih.result
        ∙ ap (λ z. size_received fs (sizing m ih.rest z size_len))
            (append_assoc known bs (take (want - length bs) (stream rest))
              ∙ ap (λ z. known ++ z)
                  (sym (take-append_two (want - length bs) want bs (stream rest) (omega arith))
                    ∙ ap (take want) s));
    left =
        ih.left
        ∙ sym (drop-append_two (want - length bs) want bs (stream rest) (omega arith))
        ∙ ap (drop want) s;
    ends = ih.ends ∙ same;
  }

  pub stored_at :
      (m : Machine Disk) (known zs : List ℕ) (b : ℕ) (bs : List ℕ) (rest : List Recv)
      → suc (length bs) ≤ length zs
      → sizing m rest ((known ++ b ∷ bs) ++ drop (suc (length bs)) zs) (length (known ++ b ∷ bs))
        ≡ sizing m rest
            (set_range (known ++ zs) (length known) (b ∷ bs))
            (length known + suc (length bs))
  stored_at m known zs b bs rest le =
      ap (λ z. sizing m rest z (length (known ++ b ∷ bs)))
        (sym (set_range-append known zs (b ∷ bs) le))
      ∙ ap (sizing m rest (set_range (known ++ zs) (length known) (b ∷ bs)))
          (length-append known (b ∷ bs))

  pub recv_put_size_loop-SizeRead :
      (fuel want : ℕ) (m : Machine Disk) (known zs : List ℕ) (rs : List Recv)
      → weight rs ≤ fuel
      → length known + want ≡ size_len
      → length zs ≡ want
      → want ≤ length (stream rs)
      → SizeRead want m known rs
          (recv_put_size_loop fs fuel (sizing m rs (known ++ zs) (length known)))
  unfolding recv_put_size_loop
  recv_put_size_loop-SizeRead zero want m known zs rs w e z h =
      absurd (omega (arith, weight_pos rs))
  recv_put_size_loop-SizeRead (suc fuel) zero m known [] rs w e z h =
      let full : ltb (length known) size_len ≡ false = ground arith in
      let at : length known ≡ size_len = omega arith in
      rw (full, recv_put_size_loop)
        (record {
          rest = rs;
          result = ap (λ t. size_received fs (sizing m rs (known ++ []) t)) at;
          left = refl;
          ends = refl;
        })
  recv_put_size_loop-SizeRead (suc fuel) zero m known (x ∷ zs) rs w e z h = absurd (omega arith)
  recv_put_size_loop-SizeRead (suc fuel) (suc want) m known zs rs w e z h =
      let short : ltb (length known) size_len ≡ true = ground arith in
      rw (short, recv_put_size_loop)
        (elim (read_from_cases (size_len - length known) rs (omega arith)) [
          | arrived b bs rest r s le less same ↦
              rw (r, recv_put_size_loop)
                (SizeRead-arrived (suc want) m known (b ∷ bs) rs rest _ s (omega arith) same (
                  subst
                    (λ o.
                      SizeRead (suc want - suc (length bs)) m (known ++ b ∷ bs) rest
                        (recv_put_size_loop fs fuel o))
                    (stored_at m known zs b bs rest (omega arith))
                    (recv_put_size_loop-SizeRead fuel (suc want - suc (length bs)) m
                      (known ++ b ∷ bs) (drop (suc (length bs)) zs) rest (omega arith)
                      (omega (arith, length-append known (b ∷ bs)))
                      (omega (arith, length-drop (suc (length bs)) zs))
                      (omega (arith, ap length s, length-append (b ∷ bs) (stream rest))))))
          | resumed rest r s less same ↦
              let ih =
                recv_put_size_loop-SizeRead fuel (suc want) m known zs rest (omega arith) e z
                  (omega (arith, ap length s)) in
              rw (r, recv_put_size_loop)
                (record {
                  rest = ih.rest;
                  result =
                      ih.result
                      ∙ ap
                          (λ b.
                            size_received fs
                              (sizing m ih.rest (known ++ take (suc want) b) size_len))
                          s;
                  left = ih.left ∙ ap (drop (suc want)) s;
                  ends = ih.ends ∙ same;
                })
          | ended r s x ↦ absurd (omega (arith, ap length s))
          | lost rest r s x ↦ absurd (omega (arith, ap length s))
          | waits r s ↦ absurd (omega (arith, ap (λ q. length (stream q)) s))
        ])

  -- A new upload to which eight bytes of a size arrive first, cut into any pieces.
  pub recv_put_size_handler-whole :
      (m : Machine Disk) (n : ℕ) (more : List ℕ)
      → m.client.bytes_transferred ≡ 0
      → length m.client.size_buf ≡ size_len
      → stream m.socket.incoming ≡ to_bytes size_len n ++ more
      → (rest : List Recv) × (recv_put_size_handler fs m
          ≡ size_received fs (sizing m rest (to_bytes size_len n) size_len))
        × (stream rest ≡ more)
  unfolding recv_put_size_handler
  recv_put_size_handler-whole m n more t b e =
      let head : List ℕ = to_bytes size_len n in
      let eight : length head ≡ size_len = length-to_bytes size_len n in
      let r =
        recv_put_size_loop-SizeRead (weight m.socket.incoming) size_len m [] m.client.size_buf
          m.socket.incoming (omega arith) (omega arith) b
          (omega (arith, ap length e, length-append head more)) in
      (
        r.rest,
        ap
              (λ z.
                recv_put_size_loop fs (weight m.socket.incoming)
                  (sizing m m.socket.incoming m.client.size_buf z))
              t
            ∙ r.result
            ∙ ap (λ z. size_received fs (sizing m r.rest z size_len))
                (ap (take size_len) e
                  ∙ ap (λ j. take j (head ++ more)) (sym eight)
                  ∙ take-append head more),
        r.left
            ∙ ap (drop size_len) e
            ∙ ap (λ j. drop j (head ++ more)) (sym eight)
            ∙ drop-append head more,
      )

  -- The connection whose upload has been stored.
  abbrev pub put_done : Machine Disk → List Recv → ℕ → Disk → Machine Disk
  put_done m rest n d = record m {
    socket = record m.socket { incoming = rest };
    disk = d;
    client = record m.client {
      size_buf = to_bytes size_len n;
      state = recv_put_data;
      file_fd = none;
      bytes_transferred = n;
    };
  }

  -- The size and the bytes of a file.
  pub recv_put_size-stored :
      (f : ℕ) (file : Appends fs f) (m : Machine Disk) (d : Disk) (contents : List ℕ)
      → m.client.bytes_transferred ≡ 0
      → length m.client.size_buf ≡ size_len
      → open_write (filepath m) m.disk ≡ (some f, d)
      → file.content d ≡ []
      → length contents < 256 ^ size_len
      → stream m.socket.incoming ≡ to_bytes size_len (length contents) ++ contents
      → (rest : List Recv) × (d' : Disk) × (recv_put_size_handler fs m
          ≡ stored_ok fs (put_done m rest (length contents) (fs.close_file f d')))
        × (file.content d' ≡ contents)
  unfolding size_received
  recv_put_size-stored f file m d contents t b o empty small e =
      let n : ℕ = length contents in
      let (rest, out, left) = recv_put_size_handler-whole m n contents t b e in
      let sized : Machine Disk = record m {
        socket = record m.socket { incoming = rest };
        disk = d;
        client = record m.client {
          size_buf = to_bytes size_len n;
          bytes_transferred = 0;
          file_fd = some f;
          state = recv_put_data;
        };
      } in
      let size : expected_size sized.client ≡ n = from_bytes-to_bytes size_len n small in
      let (rest', d', stored, is) =
        recv_put_data_full fs f file sized refl (ap length empty)
          (omega (arith, ap length left, size)) in
      (
        rest',
        d',
        out
            ∙ ap (λ r. upload_opened fs r (sizing m rest (to_bytes size_len n) 0)) o
            ∙ stored
            ∙ ap
                (λ k. stored_ok fs (record (put_done m rest' n (fs.close_file f d')) {
                  client = record (put_done m rest' n (fs.close_file f d')).client {
                    bytes_transferred = k;
                  };
                }))
                size,
        is ∙ ap (λ z. z ++ stream rest) empty ∙ left,
      )
