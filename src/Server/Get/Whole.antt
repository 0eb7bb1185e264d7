-- ===== src/Server/Get/Whole.antt =====
-- The loop of `send_get_data` on a socket that has room.
use file_system_server.Base.{
  ℕ, zero, suc, ◌+◌, ◌-◌, ◌*◌, ◌≤◌, ◌<◌, ◌≡◌, refl, sym, subst, ap, ◌∙◌, true, false, List, [], ◌∷◌,
  ◌++◌, some, arith, length, take, drop_all, take_all, length-take, length-drop, append-nil, ltb,
  ltb→lt, Bool-cases, inl, inr,
}
use file_system_server.Os.{
  Send, accepts, interrupts, breaks, Socket, after_write, write_whole, FileSystem,
}
use file_system_server.Server.State.{Machine, buffer_size, close_and_cleanup}
use file_system_server.Server.Response.{finish}
use file_system_server.Server.Get.{read_len, send_get_data_loop, send_get_data_handler}
use file_system_server.Server.Get.Download.{
  Readable, downloading, rest_of, next_bytes, next_bytes_pos, pread-next, sent_part, at_end,
  full_le,
}

-- The next writes that take a whole buffer each are at least so many.
abbrev pub HasRoom : ℕ → List Send → Type 0
HasRoom zero outs = Unit
HasRoom (suc k) [] = ⊥
HasRoom (suc k) (accepts n ∷ outs) = (buffer_size ≤ n) × HasRoom k outs
HasRoom (suc k) (interrupts ∷ outs) = ⊥
HasRoom (suc k) (breaks ∷ outs) = ⊥

HasRoom-length : (k : ℕ) (outs : List Send) → HasRoom k outs → k ≤ length outs
HasRoom-length zero outs h = omega arith
HasRoom-length (suc k) [] h = absurd h
HasRoom-length (suc k) (accepts n ∷ outs) h = omega (arith, HasRoom-length k outs h.1)
HasRoom-length (suc k) (interrupts ∷ outs) h = absurd h
HasRoom-length (suc k) (breaks ∷ outs) h = absurd h

module _ (fs : FileSystem) (f : ℕ) (file : Readable fs f) where
  open fs use {Disk}
  open file use {content}

  -- The rest is sent and the connection is closed.
  pub record IsSent (m : Machine Disk) (s : Socket) (t : ℕ) (out : Machine Disk) : Type 0 where
    pub closed : out.freed ≡ true
    pub all_sent : out.socket.sent ≡ s.sent ++ rest_of fs f file m t

  next_bytes_size :
      (m : Machine Disk) (t : ℕ)
      → length (content m.disk) ≡ m.client.file_size
      → (length (next_bytes fs f file m t) ≤ buffer_size)
        × (m.client.file_size - t - buffer_size
            ≡ m.client.file_size - (t + length (next_bytes fs f file m t)))
        × (length (next_bytes fs f file m t) ≤ m.client.file_size - t)
  unfolding next_bytes
  next_bytes_size m t c = ground (
    arith,
    length-take (read_len fs (record m.client { bytes_transferred = t })) (rest_of fs f file m t),
    length-drop t (content m.disk),
  )

  whole_round :
      (fuel : ℕ) (m : Machine Disk) (s : Socket) (t n : ℕ) (outs : List Send)
      → s.outcomes ≡ accepts n ∷ outs
      → buffer_size ≤ n
      → length (content m.disk) ≡ m.client.file_size
      → ltb t m.client.file_size ≡ true
      → (next : List ℕ) → next_bytes fs f file m t ≡ next
      → 0 < length next
      → IsSent m (after_write s outs next) (t + length next) (
          send_get_data_loop fs fuel
            (downloading fs f file m (after_write s outs next) (t + length next)))
      → IsSent m s t (send_get_data_loop fs (suc fuel) (downloading fs f file m s t))
  unfolding send_get_data_loop
  whole_round fuel m s t n outs o big c more [] p pos keep = absurd (omega arith)
  whole_round fuel m s t n outs o big c more (b ∷ bs) p pos keep =
      let (le, gone, inside) = next_bytes_size m t c in
      let write_all = write_whole (b ∷ bs) s n outs o (omega (arith, ap length p)) in
      let same = sent_part fs f file m s t (length (b ∷ bs)) outs (omega (arith, ap length p)) in
      let whole : take (length (b ∷ bs)) (next_bytes fs f file m t) ≡ b ∷ bs =
        ap (take (length (b ∷ bs))) p ∙ take_all (length (b ∷ bs)) (b ∷ bs) (omega arith) in
      rw (more, pread-next fs f file m s t, p, write_all, not_short (length bs), send_get_data_loop)
        (record {
          closed = keep.closed;
          all_sent =
              keep.all_sent
              ∙ ap (λ z. (s.sent ++ z) ++ rest_of fs f file m (t + length (b ∷ bs))) (sym whole)
              ∙ same;
        })
    where
      not_short : (k : ℕ) → ltb (suc k) (suc k) ≡ false
      not_short k = ground arith

  all_out :
      (fuel : ℕ) (m : Machine Disk) (s : Socket) (t : ℕ)
      → length (content m.disk) ≡ m.client.file_size
      → t ≤ m.client.file_size
      → ltb t m.client.file_size ≡ false
      → IsSent m s t (send_get_data_loop fs (suc fuel) (downloading fs f file m s t))
  unfolding send_get_data_loop close_and_cleanup finish
  all_out fuel m s t c le full =
      rw (full, at_end t m.client.file_size le full, send_get_data_loop)
        (record {
          closed = refl;
          all_sent = sym (
              ap (λ z. s.sent ++ z)
                (drop_all t (content m.disk) (omega (arith, full_le t m.client.file_size full)))
              ∙ append-nil s.sent);
        })

  send_get_data_loop-IsSent :
      (fuel k : ℕ) (m : Machine Disk) (s : Socket) (t : ℕ) (outs : List Send)
      → s.outcomes ≡ outs
      → k < fuel
      → HasRoom k outs
      → length (content m.disk) ≡ m.client.file_size
      → t ≤ m.client.file_size
      → m.client.file_size - t ≤ k * buffer_size
      → IsSent m s t (send_get_data_loop fs fuel (downloading fs f file m s t))
  send_get_data_loop-IsSent zero k m s t outs o w room c le small = absurd (omega arith)
  send_get_data_loop-IsSent (suc fuel) zero m s t outs o w room c le small =
      all_out fuel m s t c le (ground arith)
  send_get_data_loop-IsSent (suc fuel) (suc k) m s t [] o w room c le small = absurd room
  send_get_data_loop-IsSent (suc fuel) (suc k) m s t (interrupts ∷ outs) o w room c le small =
      absurd room
  send_get_data_loop-IsSent (suc fuel) (suc k) m s t (breaks ∷ outs) o w room c le small =
      absurd room
  send_get_data_loop-IsSent (suc fuel) (suc k) m s t (accepts n ∷ outs) o w room c le small =
      elim (Bool-cases (ltb t m.client.file_size)) [
        | inl more ↦
            let next : List ℕ = next_bytes fs f file m t in
            let (short, gone, inside) = next_bytes_size m t c in
            whole_round fuel m s t n outs o (room.0) c more next refl
              (next_bytes_pos fs f file m t c (ltb→lt t m.client.file_size more))
              (send_get_data_loop-IsSent fuel k m (after_write s outs next) (t + length next) outs
                refl (omega arith) (room.1) c (omega arith) (omega arith))
        | inr full ↦ all_out fuel m s t c le full
      ]

  -- A download of an open, readable file of the announced size, of which `t` bytes are sent, ends in one
  -- call if the socket takes a whole buffer in each of the next `k` writes and `k` buffers hold what
  -- is left: the client gets all the rest, and the connection is closed.
  pub send_get_data-IsSent :
      (k : ℕ) (m : Machine Disk)
      → m.client.file_fd ≡ some f
      → HasRoom k m.socket.outcomes
      → length (content m.disk) ≡ m.client.file_size
      → m.client.bytes_transferred ≤ m.client.file_size
      → m.client.file_size - m.client.bytes_transferred ≤ k * buffer_size
      → IsSent m m.socket m.client.bytes_transferred (send_get_data_handler fs m)
  unfolding send_get_data_handler
  send_get_data-IsSent k m hf room c le small =
      let fuel : ℕ = suc (suc (length m.socket.outcomes)) in
      subst
        (λ o.
          IsSent m m.socket m.client.bytes_transferred
            (send_get_data_loop fs fuel (record m { client = record m.client { file_fd = o } })))
        (sym hf)
        (send_get_data_loop-IsSent fuel k m m.socket m.client.bytes_transferred m.socket.outcomes
          refl (omega (arith, HasRoom-length k m.socket.outcomes room)) room c le small)
