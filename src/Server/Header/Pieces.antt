-- ===== src/Server/Header/Pieces.antt =====
-- A request line that arrives over several events.
use file_system_server.Base.{
  ℕ, zero, suc, ◌+◌, ◌-◌, ◌≤◌, ◌<◌, ◌≡◌, sym, subst, ap, ◌∙◌, false, List, [], ◌∷◌, ◌++◌, arith,
  length, length-append, newline, append_assoc, append-nil, lt→ltb, leb, ◌==◌,
}
use file_system_server.Common.ReadLine.{NoNewline, head_eq}
use file_system_server.Os.{
  Recv, read_from, got, weight, weight_pos, stream, pending, shut, failing, ending, arrived,
  resumed, ended, lost, waits, read_from_cases, FileSystem,
}
use file_system_server.Server.State.{Machine, max_header_len}
use file_system_server.Server.Header.{recv_header_loop}
use file_system_server.Server.Header.Line.{headed}

module _ (fs : FileSystem) where
  open fs use {Disk}

  header_waits_round :
      (fuel : ℕ) (m : Machine Disk) (buf : List ℕ) (rs rest : List Recv) (b : ℕ)
      → recv_header_loop fs fuel (headed fs m (buf ++ b ∷ []) rest)
        ≡ headed fs m ((buf ++ b ∷ []) ++ stream rest) []
      → length buf < max_header_len - 1
      → read_from 1 rs ≡ got (b ∷ []) rest
      → (s : List ℕ) → b ∷ stream rest ≡ s
      → NoNewline s
      → recv_header_loop fs (suc fuel) (headed fs m buf rs) ≡ headed fs m (buf ++ s) []
  unfolding recv_header_loop
  header_waits_round fuel m buf rs rest b keep lt r [] e nn = absurd (omega (arith, ap length e))
  header_waits_round fuel m buf rs rest b keep lt r (c ∷ s) e nn =
      rw
        (
          lt→ltb (length buf) (max_header_len - 1) lt,
          r,
          ap (λ z. z == newline) (head_eq e) ∙ nn.0,
          recv_header_loop,
        )
        (keep
          ∙ ap (λ z. headed fs m z [])
              (append_assoc buf (b ∷ []) (stream rest) ∙ ap (λ z. buf ++ z) e))

  -- A part of a line without its newline, with more to come, is kept.
  pub header_loop_waits :
      (fuel : ℕ) (m : Machine Disk) (buf : List ℕ) (rs : List Recv)
      → weight rs ≤ fuel
      → NoNewline (stream rs)
      → ending rs ≡ pending
      → length buf + length (stream rs) < max_header_len - 1
      → recv_header_loop fs fuel (headed fs m buf rs) ≡ headed fs m (buf ++ stream rs) []
  unfolding recv_header_loop
  header_loop_waits zero m buf rs w nn p lt = absurd (omega (arith, weight_pos rs))
  header_loop_waits (suc fuel) m buf rs w nn p lt =
      let room = lt→ltb (length buf) (max_header_len - 1) (omega arith) in
      elim (read_from_cases 1 rs (omega arith)) [
        | arrived b [] rest r s le less same ↦
            header_waits_round fuel m buf rs rest b
              (header_loop_waits fuel m (buf ++ b ∷ []) rest (omega arith)
                (rest_NoNewline b (stream rest) (subst NoNewline (sym s) nn)) (same ∙ p)
                (omega (arith, length-append buf (b ∷ []), ap length s)))
              (omega arith) r (stream rs) s nn
        | arrived b (b' ∷ bs) rest r s le less same ↦ absurd (omega arith)
        | resumed rest r s less same ↦
            rw (room, r, recv_header_loop)
              (header_loop_waits fuel m buf rest (omega arith) (subst NoNewline (sym s) nn)
                  (same ∙ p) (omega (arith, ap length s))
                ∙ ap (λ z. headed fs m (buf ++ z) []) s)
        | ended r s x ↦ absurd (shut_pending (sym x ∙ p))
        | lost rest r s x ↦ absurd (failing_pending (sym x ∙ p))
        | waits r s ↦
            rw (room, r, recv_header_loop)
              (rw (not_full (length buf) (omega arith)) (
                ap (λ z. headed fs m z [])
                  (sym (append-nil buf) ∙ ap (λ z. buf ++ stream z) (sym s))))
      ]
    where
      rest_NoNewline : (b : ℕ) (bs : List ℕ) → NoNewline (b ∷ bs) → NoNewline bs
      rest_NoNewline b bs h = h.1

      shut_pending : shut ≡ pending → ⊥
      shut_pending e = cc

      failing_pending : failing ≡ pending → ⊥
      failing_pending e = cc

      not_full : (n : ℕ) → n < max_header_len - 1 → leb (max_header_len - 1) n ≡ false
      not_full n h = ground arith
