-- ===== src/Common/WriteAll.antt =====
-- common.c, `write_all_to_socket`: what is sent for every sequence of outcomes.
use file_system_server.Base.{
  ℕ, zero, suc, ◌+◌, ◌-◌, ◌≤◌, ◌<◌, ◌≡◌, refl, sym, ap, ◌∙◌, true, false, List, [], ◌∷◌, ◌++◌,
  Bool-cases, inl, inr, Option, none, some, arith, length, take, drop, ltb, append_assoc,
  append-nil, length-drop, min, drop_all, take-append-drop, drop-drop, lt→ltb,
}
use file_system_server.Os.{
  Send, accepts, interrupts, breaks, Socket, write, write_next, wrote, would_block, write_failed,
  write_interrupted,
}

-- The loop, with the count of bytes written. `none` is the result -1. The fuel bounds the writes that the
-- socket can serve.
unfoldable pub write_all_loop : ℕ → List ℕ → ℕ → Socket → Option ℕ × Socket
write_all_loop zero buffer total s = (none, s)
write_all_loop (suc fuel) buffer total s = elim (ltb total (length buffer)) [
  | false ↦ (some total, s)
  | true ↦ elim (write (drop total buffer) s) [
    | wrote n s' ↦ write_all_loop fuel buffer (total + n) s'
    | write_interrupted s' ↦ write_all_loop fuel buffer total s'
    | would_block s' ↦ (none, s')
    | write_failed s' ↦ (none, s')
  ]
]

unfoldable pub write_all_to_socket : List ℕ → Socket → Option ℕ × Socket
unfolding write_all_loop
write_all_to_socket buffer s = write_all_loop (suc (length s.outcomes)) buffer 0 s

-- The bytes that the socket takes before it fails or is full.
abbrev pub room : List Send → ℕ
room [] = 0
room (accepts k ∷ rest) = k + room rest
room (interrupts ∷ rest) = room rest
room (breaks ∷ rest) = 0

at_length :
    (total : ℕ) (buffer : List ℕ)
    → total ≤ length buffer
    → ltb total (length buffer) ≡ false
    → total ≡ length buffer
at_length total buffer le h = ground arith

pub take-advance :
    (k n : ℕ) (bs : List ℕ) → k ≤ length bs → take k bs ++ take n (drop k bs) ≡ take (k + n) bs
take-advance zero n bs h = ap (λ j. take j bs) {x = n} {y = 0 + n} (omega arith)
take-advance (suc k) n [] h = absurd (omega arith)
take-advance (suc k) n (b ∷ bs) h =
    ap (λ t. b ∷ t) (take-advance k n bs (omega arith))
    ∙ ap (λ j. take j (b ∷ bs)) {x = suc (k + n)} {y = suc k + n} (omega arith)

written_all :
    (fuel : ℕ) (buffer : List ℕ) (total : ℕ) (s : Socket)
    → total ≡ length buffer
    → let out = write_all_loop (suc fuel) buffer total s in
      (out.0 ≡ some (length buffer)) × (out.1.sent ≡ s.sent ++ drop total buffer)
unfolding write_all_loop
written_all fuel buffer total s e =
    let full : ltb total (length buffer) ≡ false = ground arith in
    rw (full, write_all_loop)
      (
        ap some e,
        sym (ap (λ t. s.sent ++ t) (drop_all total buffer (omega arith)) ∙ append-nil s.sent),
      )

sent_on :
    (sent buffer : List ℕ) (total n : ℕ)
    → (sent ++ take n (drop total buffer)) ++ drop (total + n) buffer ≡ sent ++ drop total buffer
sent_on sent buffer total n =
    append_assoc sent (take n (drop total buffer)) (drop (total + n) buffer)
    ∙ ap (λ t. sent ++ t)
        (ap (λ t. take n (drop total buffer) ++ t) (sym (drop-drop total n buffer))
          ∙ take-append-drop n (drop total buffer))

write_all_loop-whole :
    (fuel : ℕ) (o : List Send) (buffer : List ℕ) (total : ℕ) (s : Socket)
    → length o < fuel
    → total ≤ length buffer
    → length buffer - total ≤ room o
    → let out = write_all_loop fuel buffer total (record s { outcomes = o }) in
      (out.0 ≡ some (length buffer)) × (out.1.sent ≡ s.sent ++ drop total buffer)
unfolding write_all_loop write write_next
write_all_loop-whole zero o buffer total s w le h = absurd (omega arith)
write_all_loop-whole (suc fuel) [] buffer total s w le h =
    written_all fuel buffer total (record s { outcomes = [] }) (omega arith)
write_all_loop-whole (suc fuel) (breaks ∷ rest) buffer total s w le h =
    written_all fuel buffer total (record s { outcomes = breaks ∷ rest }) (omega arith)
write_all_loop-whole (suc fuel) (interrupts ∷ rest) buffer total s w le h =
    elim (Bool-cases (ltb total (length buffer))) [
      | inl more ↦
          rw (more, write_all_loop)
            (write_all_loop-whole fuel rest buffer total s (omega arith) le h)
      | inr full ↦
          written_all fuel buffer total (record s { outcomes = interrupts ∷ rest })
            (at_length total buffer le full)
    ]
write_all_loop-whole (suc fuel) (accepts k ∷ rest) buffer total s w le h =
    elim (Bool-cases (ltb total (length buffer))) [
      | inl more ↦
          let n : ℕ = min k (length (drop total buffer)) in
          let s' : Socket = record s {
            outcomes = rest;
            sent = s.sent ++ take n (drop total buffer);
          } in
          let (whole, out) =
            write_all_loop-whole fuel rest buffer (total + n) s' (omega arith)
              (omega (arith, length-drop total buffer)) (omega (arith, length-drop total buffer)) in
          rw (more, write_all_loop) (whole, out ∙ sent_on s.sent buffer total n)
      | inr full ↦
          written_all fuel buffer total (record s { outcomes = accepts k ∷ rest })
            (at_length total buffer le full)
    ]

write_all_loop-fails :
    (fuel : ℕ) (o : List Send) (buffer : List ℕ) (total : ℕ) (s : Socket)
    → length o < fuel
    → total ≤ length buffer
    → room o < length buffer - total
    → let out = write_all_loop fuel buffer total (record s { outcomes = o }) in
      (out.0 ≡ none) × (out.1.sent ≡ s.sent ++ take (room o) (drop total buffer))
unfolding write_all_loop write write_next
write_all_loop-fails zero o buffer total s w le h = absurd (omega arith)
write_all_loop-fails (suc fuel) [] buffer total s w le h =
    rw (lt→ltb total (length buffer) (omega arith), write_all_loop) (refl, sym (append-nil s.sent))
write_all_loop-fails (suc fuel) (breaks ∷ rest) buffer total s w le h =
    rw (lt→ltb total (length buffer) (omega arith), write_all_loop) (refl, sym (append-nil s.sent))
write_all_loop-fails (suc fuel) (interrupts ∷ rest) buffer total s w le h =
    rw (lt→ltb total (length buffer) (omega arith), write_all_loop)
      (write_all_loop-fails fuel rest buffer total s (omega arith) le h)
write_all_loop-fails (suc fuel) (accepts k ∷ rest) buffer total s w le h =
    let left : List ℕ = drop total buffer in
    let part : min k (length left) ≡ k = omega (arith, length-drop total buffer) in
    let s' : Socket = record s { outcomes = rest; sent = s.sent ++ take k left } in
    let (fails, out) =
      write_all_loop-fails fuel rest buffer (total + k) s' (omega arith) (omega arith)
        (omega arith) in
    rw (lt→ltb total (length buffer) (omega arith), part, write_all_loop)
      (
        fails,
        out
            ∙ append_assoc s.sent (take k left) (take (room rest) (drop (total + k) buffer))
            ∙ ap (λ t. s.sent ++ (take k left ++ take (room rest) t))
                (sym (drop-drop total k buffer))
            ∙ ap (λ t. s.sent ++ t)
                (take-advance k (room rest) left (omega (arith, length-drop total buffer))),
      )

-- If the socket takes the bytes in the end, in whatever parts and however often the call is interrupted,
-- `write_all_to_socket` sends exactly them and returns their number.
pub write_all_to_socket_whole :
    (buffer : List ℕ) (s : Socket)
    → length buffer ≤ room s.outcomes
    → let out = write_all_to_socket buffer s in
      (out.0 ≡ some (length buffer)) × (out.1.sent ≡ s.sent ++ buffer)
unfolding write_all_to_socket
write_all_to_socket_whole buffer s h =
    write_all_loop-whole (suc (length s.outcomes)) s.outcomes buffer 0 s (omega arith) (omega arith)
      (omega arith)

-- If the socket fails or is full before, `write_all_to_socket` returns -1, and what it has sent are the
-- first bytes, as many as the socket took.
pub write_all_to_socket_fails :
    (buffer : List ℕ) (s : Socket)
    → room s.outcomes < length buffer
    → let out = write_all_to_socket buffer s in
      (out.0 ≡ none) × (out.1.sent ≡ s.sent ++ take (room s.outcomes) buffer)
unfolding write_all_to_socket
write_all_to_socket_fails buffer s h =
    write_all_loop-fails (suc (length s.outcomes)) s.outcomes buffer 0 s (omega arith) (omega arith)
      (omega arith)
