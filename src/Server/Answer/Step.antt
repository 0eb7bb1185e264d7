-- ===== src/Server/Answer/Step.antt =====
-- One `write` of what is left of a buffer, as the handlers of an answer make it.
use file_system_server.Base.{
  ℕ, ◌+◌, ◌-◌, ◌≤◌, ◌<◌, ◌≡◌, refl, sym, ap, ◌∙◌, arith, List, [], ◌++◌, length, length-take,
  length-drop, length-append, take, drop, range_step, append_assoc, ◌==◌, if◌then◌else◌, Bool-cases,
  inl, inr,
}
use file_system_server.Os.{
  Socket, FileSystem, write, wrote, would_block, write_failed, write_interrupted, after_write,
  IsTaking, taken, blocked, refused, signalled, write_cases,
}
use file_system_server.Server.State.{Machine, close_and_cleanup}
use file_system_server.Server.Answer.{owed, IsAnswering, Answers, waiting, failing}

-- The rest of a buffer of which `len` bytes are used and `sent` are out.
abbrev pub left : List ℕ → ℕ → ℕ → List ℕ
left buf len sent = take (len - sent) (drop sent buf)

pub length-left :
    (buf : List ℕ) (len sent : ℕ) → len ≤ length buf → length (left buf len sent) ≡ len - sent
length-left buf len sent h =
    omega (arith, length-take (len - sent) (drop sent buf), length-drop sent buf)

-- A first part of the rest, with what follows the buffer.
left_part :
    (front buf behind : List ℕ) (len sent n : ℕ)
    → (front ++ take n (left buf len sent)) ++ (left buf len (sent + n) ++ behind)
      ≡ front ++ (left buf len sent ++ behind)
left_part front buf behind len sent n =
    append_assoc front (take n (left buf len sent)) (left buf len (sent + n) ++ behind)
    ∙ ap (λ z. front ++ z)
        (sym (append_assoc (take n (left buf len sent)) (left buf len (sent + n)) behind)
          ∙ ap (λ z. z ++ behind) (range_step len sent n buf))

left_none : (buf : List ℕ) (len sent : ℕ) → len ≤ sent → left buf len sent ≡ []
left_none buf len sent h = ap (λ j. take j (drop sent buf)) {x = len - sent} {y = 0} (omega arith)

module _ (fs : FileSystem) (content : fs.Disk → List ℕ) where
  open fs use {Disk}

  unfoldable pub one_write :
      List ℕ
      → ℕ
      → ℕ
      → (ℕ → Socket → Machine Disk)
      → (ℕ → Socket → Machine Disk)
      → Machine Disk
      → Machine Disk
  one_write buf len sent all part m = elim (write (left buf len sent) m.socket) [
    | would_block s ↦ record m { socket = s }
    | write_failed s ↦ close_and_cleanup fs (record m { socket = s })
    | write_interrupted s ↦ close_and_cleanup fs (record m { socket = s })
    | wrote n s ↦ (if sent + n == len then all n s else part n s)
  ]

  pub one_write-Answers :
      (buf : List ℕ) (len sent : ℕ) (all part : ℕ → Socket → Machine Disk) (m : Machine Disk)
      (behind : List ℕ)
      → IsAnswering fs content m
      → owed fs content m ≡ left buf len sent ++ behind
      → sent < len
      → len ≤ length buf
      → ((n : ℕ) (s : Socket)
          → s.sent ++ behind ≡ m.socket.sent ++ owed fs content m
          → length behind < length (owed fs content m)
          → (IsTaking m.socket.outcomes → IsTaking s.outcomes)
          → Answers fs content m (all n s))
      → ((n : ℕ) (s : Socket)
          → sent + n < len
          → s.sent ++ (left buf len (sent + n) ++ behind) ≡ m.socket.sent ++ owed fs content m
          → (IsTaking m.socket.outcomes → 0 < n)
          → length (owed fs content m) ≡ n + length (left buf len (sent + n) ++ behind)
          → Answers fs content m (part n s))
      → Answers fs content m (one_write buf len sent all part m)
  unfolding one_write close_and_cleanup
  one_write-Answers buf len sent all part m behind a is lt fits whole some_of =
      let size : length (left buf len sent) ≡ len - sent = length-left buf len sent fits in
      elim (write_cases (left buf len sent) m.socket) [
        | blocked e none_left ↦
            rw (e, one_write)
              (waiting a refl (omega arith) (λ h pos. absurd (omega (arith, ap length none_left))))
        | refused s' e q dead ↦
            rw (e, one_write)
              (failing (owed fs content m) refl (ap (λ z. z ++ owed fs content m) q) dead)
        | signalled s' e q dead ↦
            rw (e, one_write)
              (failing (owed fs content m) refl (ap (λ z. z ++ owed fs content m) q) dead)
        | taken n rest e le less steady ↦
            let s : Socket = after_write m.socket rest (take n (left buf len sent)) in
            let same : s.sent ++ (left buf len (sent + n) ++ behind)
                ≡ m.socket.sent ++ owed fs content m =
              left_part m.socket.sent buf behind len sent n
              ∙ ap (λ z. m.socket.sent ++ z) (sym is) in
            let owed_size : length (owed fs content m) ≡ (len - sent) + length behind =
              omega (arith, ap length is, size, length-append (left buf len sent) behind) in
            elim (Bool-cases (sent + n == len)) [
              | inl x ↦
                  rw (e, one_write, x)
                    (whole n s
                      (ap (λ z. s.sent ++ (z ++ behind))
                          (sym (left_none buf len (sent + n) (ground arith)))
                        ∙ same)
                      (omega arith) (λ h. (steady h (omega arith)).1))
              | inr x ↦
                  rw (e, one_write, x)
                    (some_of n s (ground arith) same (λ h. (steady h (omega arith)).0)
                      (omega (
                        arith,
                        length-append (left buf len (sent + n)) behind,
                        length-left buf len (sent + n) fits,
                      )))
            ]
      ]
