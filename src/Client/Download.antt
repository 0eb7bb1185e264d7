-- ===== src/Client/Download.antt =====
-- The client's side of a download: what comes to stand in the local file.
use file_system_server.Base.{
  ℕ, zero, suc, ◌+◌, ◌-◌, ◌^◌, ◌≤◌, ◌<◌, ◌≡◌, refl, sym, ap, ◌∙◌, true, false, List, [], ◌∷◌, ◌++◌,
  some, arith, length, take, drop, to_bytes, length-to_bytes, from_bytes-to_bytes, ltb, lt→ltb,
  append-nil, append_assoc, length-append, length-take, length-drop, take-append, drop-append,
}
use file_system_server.Os.{
  Recv, bytes, interrupted, broken, closed, ReadResult, got, eof, eintr, eagain, failed, read_from,
  weight, stream,
}
use file_system_server.Common.ReadAll.{read_all_from_socket, read_all_from_socket_enough}
use file_system_server.Common.WriteAll.{take-advance}
use file_system_server.Client.State.{LocalFiles, Session, with_rest}
use file_system_server.Client.Handlers.{
  after_extra, extra_byte, full_word, download_len, stored, get_loop, local_opened, download_size,
  receive_file, word,
}

-- A local file that is open for writing: what is written goes to its end, and closing keeps it.
pub record Grows (files : LocalFiles) (fd : ℕ) : Type 0 where
  pub content : files.Disk → List ℕ
  pub written :
      (bs : List ℕ) (d : files.Disk) → content (files.write_file fd bs d) ≡ content d ++ bs
  pub kept : (d : files.Disk) → content (files.close_file fd d) ≡ content d

module _ (files : LocalFiles) (fd : ℕ) (file : Grows files fd) where
  open files use {Disk, create}
  open file use {content, written, kept}

  after_extra-disk : (r : ReadResult) (s : Session Disk) → (after_extra r s).disk ≡ s.disk
  unfolding after_extra
  after_extra-disk (got bs rest) s = refl
  after_extra-disk (eof rest) s = refl
  after_extra-disk (eintr rest) s = refl
  after_extra-disk (eagain rest) s = refl
  after_extra-disk (failed rest) s = refl

  extra_byte-disk : (s : Session Disk) → (extra_byte s).disk ≡ s.disk
  unfolding extra_byte
  extra_byte-disk s = after_extra-disk (read_from 1 s.socket.incoming) s

  download_len_pos : (size total : ℕ) → total < size → 0 < download_len files size total
  download_len_pos size total lt = ground arith

  download_len_le : (size total : ℕ) → download_len files size total ≤ size - total
  download_len_le size total = ground arith

  get_round :
      (fuel size total : ℕ) (s : Session Disk) (bs : List ℕ)
      → ltb total size ≡ true
      → (read_all_from_socket (download_len files size total) s.socket.incoming).0 ≡ some bs
      → 0 < length bs
      → get_loop files (suc fuel) fd size total s
        ≡ get_loop files fuel fd size (total + length bs) (
            stored files fd bs (
              with_rest
                (read_all_from_socket (download_len files size total) s.socket.incoming).1
                s))
  unfolding get_loop
  get_round fuel size total s [] more e pos = absurd (omega arith)
  get_round fuel size total s (b ∷ bs) more e pos = rw (more, e, get_loop) refl

  get_loop-content :
      (fuel size total want : ℕ) (s : Session Disk)
      → want < fuel
      → total + want ≡ size
      → want ≤ length (stream s.socket.incoming)
      → content (get_loop files fuel fd size total s).disk
        ≡ content s.disk ++ take want (stream s.socket.incoming)
  unfolding get_loop
  get_loop-content zero size total want s w e le = absurd (omega arith)
  get_loop-content (suc fuel) size total zero s w e le =
      let full : ltb total size ≡ false = ground arith in
      rw (full, get_loop)
        (kept (extra_byte s).disk
          ∙ ap content (extra_byte-disk s)
          ∙ sym (append-nil (content s.disk)))
  get_loop-content (suc fuel) size total (suc k) s w e le =
      let n : ℕ = download_len files size total in
      let ss : List ℕ = stream s.socket.incoming in
      let pos : 0 < n = download_len_pos size total (omega arith) in
      let fits : n ≤ size - total = download_len_le size total in
      let (read, left, ends) = read_all_from_socket_enough n s.socket.incoming (omega arith) in
      let size_n : length (take n ss) ≡ n = omega (arith, length-take n ss) in
      let s' : Session Disk =
        stored files fd (take n ss) (with_rest (read_all_from_socket n s.socket.incoming).1 s) in
      ap (λ o. content o.disk)
        (get_round fuel size total s (take n ss) (lt→ltb total size (omega arith)) read
          (omega arith))
      ∙ get_loop-content fuel size (total + length (take n ss)) (suc k - n) s' (omega arith)
          (omega arith) (omega (arith, ap length left, length-drop n ss))
      ∙ ap (λ c. c ++ take (suc k - n) (stream (read_all_from_socket n s.socket.incoming).1))
          (written (take n ss) s.disk)
      ∙ append_assoc (content s.disk) (take n ss) _
      ∙ ap (λ t. content s.disk ++ (take n ss ++ take (suc k - n) t)) left
      ∙ ap (λ t. content s.disk ++ t) (take-advance n (suc k - n) ss (omega arith))
      ∙ ap (λ j. content s.disk ++ take j ss) {x = n + (suc k - n)} {y = suc k} (omega arith)

  stream-weight : (rs : List Recv) → length (stream rs) < weight rs
  stream-weight [] = omega arith
  stream-weight (bytes b bs ∷ rest) =
      omega (arith, stream-weight rest, length-append bs (stream rest))
  stream-weight (interrupted ∷ rest) = omega (arith, stream-weight rest)
  stream-weight (broken ∷ rest) = omega (arith, stream-weight rest)
  stream-weight (closed ∷ rest) = omega (arith, stream-weight rest)

  -- If the local file is created empty and takes what is written, and the eight bytes of a size and then
  -- as many bytes arrive, cut into any pieces, `handle_get` has behind its `OK` exactly these bytes in
  -- the file, whatever comes behind them.
  pub receive_file_whole :
      (local file_bytes more : List ℕ) (d : Disk) (s : Session Disk)
      → create local s.disk ≡ (some fd, d)
      → content d ≡ []
      → length file_bytes < 256 ^ word
      → stream s.socket.incoming ≡ to_bytes word (length file_bytes) ++ (file_bytes ++ more)
      → content (receive_file files local s).disk ≡ file_bytes
  unfolding receive_file get_loop
  receive_file_whole local file_bytes more d s c empty small e =
      let ss : List ℕ = stream s.socket.incoming in
      let n : ℕ = length file_bytes in
      let head : List ℕ = to_bytes word n in
      let eight : length head ≡ word = length-to_bytes word n in
      let (read, left, ends) =
        read_all_from_socket_enough word s.socket.incoming
          (omega (arith, ap length e, length-append head (file_bytes ++ more))) in
      let rest : List Recv = (read_all_from_socket word s.socket.incoming).1 in
      let front : take word ss ≡ head =
        ap (take word) e
        ∙ ap (λ j. take j (head ++ (file_bytes ++ more))) (sym eight)
        ∙ take-append head (file_bytes ++ more) in
      let behind : stream rest ≡ file_bytes ++ more =
        left
        ∙ ap (drop word) e
        ∙ ap (λ j. drop j (head ++ (file_bytes ++ more))) (sym eight)
        ∙ drop-append head (file_bytes ++ more) in
      let known : full_word (some (take word ss)) ≡ some n =
        ap (λ b. full_word (some b)) front ∙ word_known n small in
      ap (λ o. content (download_size files local (full_word o) (with_rest rest s)).disk) read
      ∙ ap (λ o. content (download_size files local o (with_rest rest s)).disk) known
      ∙ ap (λ o. content (local_opened files n o (with_rest rest s)).disk) c
      ∙ get_loop-content (suc (weight rest)) n 0 n (record (with_rest rest s) { disk = d })
          (omega (arith, stream-weight rest, ap length behind, length-append file_bytes more))
          (omega arith) (omega (arith, ap length behind, length-append file_bytes more))
      ∙ ap (λ z. z ++ take n (stream rest)) empty
      ∙ ap (take n) behind
      ∙ take-append file_bytes more
    where
      word_known : (n : ℕ) → n < 256 ^ word → full_word (some (to_bytes word n)) ≡ some n
      word_known n small = rw (length-to_bytes word n) (ap some (from_bytes-to_bytes word n small))
