-- ===== src/Server/Get/Download.antt =====
-- The loop of `send_get_data`: which bytes reach the client, for every behaviour of the socket.
use file_system_server.Base.{
  ℕ, zero, suc, ◌+◌, ◌-◌, ◌≤◌, ◌<◌, ◌≡◌, refl, sym, subst, ap, ◌∙◌, true, false, List, [], ◌∷◌,
  ◌++◌, some, arith, length, take, drop, drop_all, drop-drop, length-take, length-drop, min,
  take-append-drop, append_assoc, append-nil, ltb, ltb→lt, ◌==◌, Bool-cases, inl, inr, take-take,
}
use file_system_server.Os.{
  Send, Socket, IsTaking, after_write, WriteOutcome, taken, blocked, refused, signalled,
  write_cases, FileSystem,
}
use file_system_server.Server.State.{Machine, close_and_cleanup}
use file_system_server.Server.Response.{finish}
use file_system_server.Server.Get.{
  read_len, pread_download, send_get_data_loop, send_get_data_handler,
}

-- A regular file that is open for reading: `pread` returns what stands at the offset, as far as the
-- file goes.
pub record Readable (fs : FileSystem) (f : ℕ) : Type 0 where
  pub content : fs.Disk → List ℕ
  pub reads : (n off : ℕ) (d : fs.Disk) → fs.pread f n off d ≡ some (take n (drop off (content d)))

pub at_end : (t n : ℕ) → t ≤ n → ltb t n ≡ false → (t == n) ≡ true
at_end t n le h = ground arith

pub full_le : (t n : ℕ) → ltb t n ≡ false → n ≤ t
full_le t n h = ground arith

module _ (fs : FileSystem) (f : ℕ) (file : Readable fs f) where
  open fs use {Disk, pread}
  open file use {content, reads}

  -- The connection `m` with its socket at `s` and `t` bytes of `f` sent.
  abbrev pub downloading : Machine Disk → Socket → ℕ → Machine Disk
  downloading m s t = record m {
    socket = s;
    client = record m.client { file_fd = some f; bytes_transferred = t };
  }

  -- The bytes of the file behind the first `t`.
  abbrev pub rest_of : Machine Disk → ℕ → List ℕ
  rest_of m t = drop t (content m.disk)

  -- What the loop comes to: the whole rest is sent and the connection is closed; or the connection
  -- waits, and what was sent and what is left are still the file; or the socket fails, with a first
  -- part sent.
  pub data Downloads (m : Machine Disk) (s : Socket) (t : ℕ) (out : Machine Disk) : Type 0 where
    complete : out.freed ≡ true → out.socket.sent ≡ s.sent ++ rest_of m t → Downloads m s t out
    waiting :
        (s' : Socket) (t' : ℕ)
        → out ≡ downloading m s' t'
        → t ≤ t'
        → t' ≤ m.client.file_size
        → s'.sent ++ rest_of m t' ≡ s.sent ++ rest_of m t
        → (IsTaking s.outcomes → 0 < length s.outcomes → t < t')
        → Downloads m s t out
    failing :
        (left : List ℕ)
        → out.freed ≡ true
        → out.socket.sent ++ left ≡ s.sent ++ rest_of m t
        → (IsTaking s.outcomes → ⊥)
        → Downloads m s t out

  Downloads-step :
      (m : Machine Disk) (s s' : Socket) (t t' : ℕ) (out : Machine Disk)
      → s'.sent ++ rest_of m t' ≡ s.sent ++ rest_of m t
      → t ≤ t'
      → (IsTaking s.outcomes → (t < t') × IsTaking s'.outcomes)
      → Downloads m s' t' out
      → Downloads m s t out
  Downloads-step m s s' t t' out e le more (complete x y) = complete x (y ∙ e)
  Downloads-step m s s' t t' out e le more (waiting s'' t'' p a b q grows) =
      waiting s'' t'' p (omega arith) b (q ∙ e) (λ h pos. omega (arith, (more h).0, a))
  Downloads-step m s s' t t' out e le more (failing left x y dead) =
      failing left x (y ∙ e) (λ h. dead (more h).1)

  -- The bytes that `pread` has for the next write.
  unfoldable pub next_bytes : Machine Disk → ℕ → List ℕ
  next_bytes m t = take (read_len fs (record m.client { bytes_transferred = t })) (rest_of m t)

  pub pread-next :
      (m : Machine Disk) (s : Socket) (t : ℕ)
      → pread_download fs (downloading m s t) ≡ next_bytes m t
  unfolding next_bytes
  pread-next m s t = rw (reads (read_len fs (record m.client { bytes_transferred = t })) t m.disk)

  next_bytes_le :
      (m : Machine Disk) (t : ℕ)
      → length (content m.disk) ≡ m.client.file_size
      → length (next_bytes m t) ≤ m.client.file_size - t
  unfolding next_bytes
  next_bytes_le m t c =
      let k : ℕ = read_len fs (record m.client { bytes_transferred = t }) in
      omega (arith, length-take k (rest_of m t), length-drop t (content m.disk))

  read_len_pos :
      (m : Machine Disk) (t : ℕ)
      → t < m.client.file_size
      → 0 < read_len fs (record m.client { bytes_transferred = t })
  read_len_pos m t lt = ground arith

  pub next_bytes_pos :
      (m : Machine Disk) (t : ℕ)
      → length (content m.disk) ≡ m.client.file_size
      → t < m.client.file_size
      → 0 < length (next_bytes m t)
  unfolding next_bytes
  next_bytes_pos m t c lt =
      let k : ℕ = read_len fs (record m.client { bytes_transferred = t }) in
      omega
        (arith, length-take k (rest_of m t), length-drop t (content m.disk), read_len_pos m t lt)

  -- A first part of the next bytes goes out.
  pub sent_part :
      (m : Machine Disk) (s : Socket) (t n : ℕ) (rest : List Send)
      → n ≤ length (next_bytes m t)
      → (after_write s rest (take n (next_bytes m t))).sent ++ rest_of m (t + n)
        ≡ s.sent ++ rest_of m t
  unfolding next_bytes
  sent_part m s t n rest le =
      let k : ℕ = read_len fs (record m.client { bytes_transferred = t }) in
      append_assoc s.sent (take n (take k (rest_of m t))) (rest_of m (t + n))
      ∙ ap (λ z. s.sent ++ z)
          (ap (λ z. z ++ rest_of m (t + n))
              (take-take n k (rest_of m t)
                ∙ ap (λ j. take j (rest_of m t)) {x = min n k} {y = n}
                    (omega (arith, length-take k (rest_of m t))))
            ∙ ap (λ z. take n (rest_of m t) ++ z) (sym (drop-drop t n (content m.disk)))
            ∙ take-append-drop n (rest_of m t))

  -- One write of the bytes `b ∷ bs` that `pread` has.
  download_round :
      (fuel : ℕ) (m : Machine Disk) (s : Socket) (t : ℕ)
      → ((s' : Socket) (t' : ℕ)
          → length s'.outcomes < length s.outcomes
          → t' ≤ m.client.file_size
          → Downloads m s' t' (send_get_data_loop fs fuel (downloading m s' t')))
      → length (content m.disk) ≡ m.client.file_size
      → t ≤ m.client.file_size
      → ltb t m.client.file_size ≡ true
      → (b : ℕ) (bs : List ℕ) → next_bytes m t ≡ b ∷ bs
      → WriteOutcome (b ∷ bs) s
      → Downloads m s t (send_get_data_loop fs (suc fuel) (downloading m s t))
  unfolding send_get_data_loop next_bytes close_and_cleanup
  download_round fuel m s t keep c le more b bs p (blocked e none_left) =
      rw (more, pread-next m s t, p, e, send_get_data_loop)
        (waiting s t refl (omega arith) le refl
          (λ h pos. absurd (omega (arith, ap length none_left))))
  download_round fuel m s t keep c le more b bs p (refused s' e q dead) =
      rw (more, pread-next m s t, p, e, send_get_data_loop)
        (failing (rest_of m t) refl (ap (λ z. z ++ rest_of m t) q) dead)
  download_round fuel m s t keep c le more b bs p (signalled s' e q dead) =
      rw (more, pread-next m s t, p, e, send_get_data_loop)
        (failing (rest_of m t) refl (ap (λ z. z ++ rest_of m t) q) dead)
  download_round fuel m s t keep c le more b bs p (taken n rest e fits less steady) =
      let s' : Socket = after_write s rest (take n (b ∷ bs)) in
      let same : s'.sent ++ rest_of m (t + n) ≡ s.sent ++ rest_of m t =
        subst
          (λ z. (after_write s rest (take n z)).sent ++ rest_of m (t + n) ≡ s.sent ++ rest_of m t) p
          (sent_part m s t n rest (omega (arith, ap length p))) in
      let bound : t + n ≤ m.client.file_size = omega (arith, ap length p, next_bytes_le m t c) in
      let more_out : IsTaking s.outcomes → (t < t + n) × IsTaking rest = λ h.
        let u : (0 < n) × IsTaking rest = steady h (omega arith) in (omega (arith, u.0), u.1) in
      elim (Bool-cases (ltb n (suc (length bs)))) [
        | inl x ↦
            rw (more, pread-next m s t, p, e, x, send_get_data_loop)
              (waiting s' (t + n) refl (omega arith) bound same
                (λ h pos. omega (arith, (more_out h).0)))
        | inr x ↦
            rw (more, pread-next m s t, p, e, x, send_get_data_loop)
              (Downloads-step m s s' t (t + n) _ same (omega arith) more_out
                (keep s' (t + n) less bound))
      ]

  download_read :
      (fuel : ℕ) (m : Machine Disk) (s : Socket) (t : ℕ)
      → ((s' : Socket) (t' : ℕ)
          → length s'.outcomes < length s.outcomes
          → t' ≤ m.client.file_size
          → Downloads m s' t' (send_get_data_loop fs fuel (downloading m s' t')))
      → length (content m.disk) ≡ m.client.file_size
      → t ≤ m.client.file_size
      → ltb t m.client.file_size ≡ true
      → (bs : List ℕ) → next_bytes m t ≡ bs
      → Downloads m s t (send_get_data_loop fs (suc fuel) (downloading m s t))
  download_read fuel m s t keep c le more [] p =
      absurd (omega (arith, ap length p, next_bytes_pos m t c (ltb→lt t m.client.file_size more)))
  download_read fuel m s t keep c le more (b ∷ bs) p =
      download_round fuel m s t keep c le more b bs p (write_cases (b ∷ bs) s)

  send_get_data_loop-Downloads :
      (fuel : ℕ) (m : Machine Disk) (s : Socket) (t : ℕ)
      → length s.outcomes < fuel
      → length (content m.disk) ≡ m.client.file_size
      → t ≤ m.client.file_size
      → Downloads m s t (send_get_data_loop fs fuel (downloading m s t))
  unfolding send_get_data_loop close_and_cleanup finish
  send_get_data_loop-Downloads zero m s t w c le = absurd (omega arith)
  send_get_data_loop-Downloads (suc fuel) m s t w c le =
      elim (Bool-cases (ltb t m.client.file_size)) [
        | inl more ↦
            download_read fuel m s t
              (λ s' t' less le'. send_get_data_loop-Downloads fuel m s' t' (omega arith) c le') c le
              more _ refl
        | inr full ↦
            rw (full, at_end t m.client.file_size le full, send_get_data_loop)
              (complete refl (
                sym (
                  ap (λ z. s.sent ++ z)
                    (drop_all t (content m.disk) (omega (arith, full_le t m.client.file_size full)))
                  ∙ append-nil s.sent)))
      ]

  -- A readable file of the announced size, of which the first `t` bytes are sent, while the socket
  -- takes what it takes. Either all of the rest is sent and the connection is closed; or the
  -- connection stays as it is but for the count of bytes sent, and what was sent and what the file
  -- has behind that count are still the rest, and the count grows where the socket takes a byte at least
  -- with each write; or the socket fails or is interrupted, the connection is closed, and a first part
  -- of the rest was sent.
  pub send_get_data-Downloads :
      (m : Machine Disk)
      → m.client.file_fd ≡ some f
      → length (content m.disk) ≡ m.client.file_size
      → m.client.bytes_transferred ≤ m.client.file_size
      → Downloads m m.socket m.client.bytes_transferred (send_get_data_handler fs m)
  unfolding send_get_data_handler
  send_get_data-Downloads m hf c le =
      let fuel : ℕ = suc (suc (length m.socket.outcomes)) in
      subst
        (λ o.
          Downloads m m.socket m.client.bytes_transferred
            (send_get_data_loop fs fuel (record m { client = record m.client { file_fd = o } })))
        (sym hf)
        (send_get_data_loop-Downloads fuel m m.socket m.client.bytes_transferred (omega arith) c le)
