-- ===== src/Sessions/Sending.antt =====
-- What the client sends on a blocking socket: the bytes that it is given, write behind write.
use file_system_server.Base.{
  ℕ, zero, suc, ◌+◌, ◌*◌, ◌≤◌, ◌<◌, ◌≡◌, refl, sym, subst, ap, ◌∙◌, false, List, [], ◌∷◌, ◌++◌,
  arith, length, length-drop, length-take, take, drop, take_all, append-nil, append_assoc, to_bytes,
  length-to_bytes, take-append-drop, ltb, lt→ltb, min,
}
use file_system_server.Os.{Send, accepts, interrupts, breaks, Socket, write, write_next}
use file_system_server.Common.WriteAll.{write_all_loop, write_all_to_socket}
use file_system_server.Client.{LocalFiles, Session, send_all}
use file_system_server.Client.Handlers.{chunk, word, send_chunks, send_file}

-- The next writes take a whole buffer each, but for signals.
abbrev pub Blocking : ℕ → List Send → Type 0
Blocking zero outs = Unit
Blocking (suc k) [] = ⊥
Blocking (suc k) (accepts n ∷ outs) = (chunk ≤ n) × Blocking k outs
Blocking (suc k) (interrupts ∷ outs) = Blocking (suc k) outs
Blocking (suc k) (breaks ∷ outs) = ⊥

-- These bytes are out, and so many writes still take a whole buffer.
pub record IsOut (k : ℕ) (bs : List ℕ) (s s' : Socket) : Type 0 where
  pub sent : s'.sent ≡ s.sent ++ bs
  pub more : Blocking k s'.outcomes

IsOut-then :
    (j k : ℕ) (xs bs : List ℕ) (s s' s'' : Socket)
    → IsOut j xs s s'
    → IsOut k bs s' s''
    → IsOut k (xs ++ bs) s s''
IsOut-then j k xs bs s s' s'' p q = record {
  sent = q.sent ∙ ap (λ z. z ++ bs) p.sent ∙ append_assoc s.sent xs bs;
  more = q.more;
}

all_written :
    (fuel : ℕ) (buffer : List ℕ) (total : ℕ) (s : Socket)
    → total ≡ length buffer
    → (write_all_loop (suc fuel) buffer total s).1 ≡ s
unfolding write_all_loop
all_written fuel buffer total s e =
    let full : ltb total (length buffer) ≡ false = ground arith in rw (full, write_all_loop) refl

write_all_loop-IsOut :
    (fuel k : ℕ) (o : List Send) (b : ℕ) (bs : List ℕ) (s : Socket)
    → length o < fuel
    → Blocking (suc k) o
    → length (b ∷ bs) ≤ chunk
    → IsOut k (b ∷ bs) s (write_all_loop fuel (b ∷ bs) 0 (record s { outcomes = o })).1
unfolding write_all_loop write write_next
write_all_loop-IsOut zero k o b bs s w h le = absurd (omega arith)
write_all_loop-IsOut (suc fuel) k [] b bs s w h le = absurd h
write_all_loop-IsOut (suc fuel) k (breaks ∷ outs) b bs s w h le = absurd h
write_all_loop-IsOut (suc fuel) k (interrupts ∷ outs) b bs s w h le =
    rw (lt→ltb 0 (suc (length bs)) (omega arith), write_all_loop)
      (write_all_loop-IsOut fuel k outs b bs s (omega arith) h le)
write_all_loop-IsOut (suc zero) k (accepts n ∷ outs) b bs s w h le = absurd (omega arith)
write_all_loop-IsOut (suc (suc fuel)) k (accepts n ∷ outs) b bs s w h le =
    let n' : ℕ = min n (suc (length bs)) in
    let whole : n' ≡ suc (length bs) = omega (arith, h.0) in
    let out : Socket = record s { outcomes = outs; sent = s.sent ++ take n' (b ∷ bs) } in
    rw (lt→ltb 0 (suc (length bs)) (omega arith), write_all_loop)
      (subst (IsOut k (b ∷ bs) s)
        (sym (all_written fuel (b ∷ bs) (0 + n') out (omega (arith, whole))))
        (record {
          sent = ap (λ z. s.sent ++ z) (take_all n' (b ∷ bs) (omega (arith, whole)));
          more = h.1;
        }))

send_all-IsOut :
    {Disk : Type 0} (k : ℕ) (bs : List ℕ) (s : Session Disk)
    → Blocking (suc k) s.socket.outcomes
    → 0 < length bs
    → length bs ≤ chunk
    → IsOut k bs s.socket (send_all bs s).socket
unfolding send_all write_all_to_socket
send_all-IsOut k [] s h pos le = absurd (omega arith)
send_all-IsOut k (b ∷ bs) s h pos le =
    write_all_loop-IsOut (suc (length s.socket.outcomes)) k s.socket.outcomes b bs s.socket
      (omega arith) h le

module _ (files : LocalFiles) where
  send_chunks-IsOut :
      (fuel k : ℕ) (contents : List ℕ) (s : Session files.Disk)
      → length contents ≤ fuel
      → length contents ≤ k * chunk
      → Blocking k s.socket.outcomes
      → IsOut 0 contents s.socket (send_chunks files fuel contents s).socket
  unfolding send_chunks
  send_chunks-IsOut zero k [] s w c h = record { sent = sym (append-nil s.socket.sent); more = tt }
  send_chunks-IsOut zero k (b ∷ bs) s w c h = absurd (omega arith)
  send_chunks-IsOut (suc fuel) k [] s w c h = record {
    sent = sym (append-nil s.socket.sent);
    more = tt;
  }
  send_chunks-IsOut (suc fuel) zero (b ∷ bs) s w c h = absurd (omega arith)
  send_chunks-IsOut (suc fuel) (suc k) (b ∷ bs) s w c h =
      let front : List ℕ = take chunk (b ∷ bs) in
      let back : List ℕ = drop chunk (b ∷ bs) in
      let out =
        send_all-IsOut k front s h (omega (arith, length-take chunk (b ∷ bs)))
          (omega (arith, length-take chunk (b ∷ bs))) in
      let rest =
        send_chunks-IsOut fuel k back (send_all front s) (omega (arith, length-drop chunk (b ∷ bs)))
          (omega (arith, length-drop chunk (b ∷ bs))) out.more in
      subst (λ z. IsOut 0 z s.socket (send_chunks files (suc fuel) (b ∷ bs) s).socket)
        (take-append-drop chunk (b ∷ bs))
        (IsOut-then k 0 front back s.socket (send_all front s).socket _ out rest)

  -- On a socket that takes a buffer with each write, with signals between: the client's upload sends the
  -- request, the eight bytes of the size and the bytes of the file, and nothing else.
  pub send_file-sent :
      (k : ℕ) (text contents : List ℕ) (size : ℕ) (s : Session files.Disk)
      → Blocking (suc (suc k)) s.socket.outcomes
      → 0 < length text
      → length text ≤ chunk
      → length contents ≤ k * chunk
      → (send_file files text size contents s).socket.sent
        ≡ s.socket.sent ++ (text ++ (to_bytes word size ++ contents))
  unfolding send_file
  send_file-sent k text contents size s h pos le c =
      let eight = length-to_bytes word size in
      let s1 = send_all text s in
      let s2 = send_all (to_bytes word size) s1 in
      let o1 = send_all-IsOut (suc k) text s h pos le in
      let o2 =
        send_all-IsOut k (to_bytes word size) s1 o1.more (omega (arith, eight))
          (omega (arith, eight)) in
      let o3 = send_chunks-IsOut (length contents) k contents s2 (omega arith) c o2.more in
      (IsOut-then (suc k) 0 text (to_bytes word size ++ contents) s.socket s1.socket _ o1
        (IsOut-then k 0 (to_bytes word size) contents s1.socket s2.socket _ o2 o3)).sent
