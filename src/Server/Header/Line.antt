-- ===== src/Server/Header/Line.antt =====
-- The request line on its way from the client to the handler that it starts.
use file_system_server.Base.{
  ℕ, zero, suc, ◌+◌, ◌-◌, ◌≤◌, ◌<◌, ◌≡◌, refl, ap, ◌∙◌, false, List, [], ◌∷◌, ◌++◌, some, arith,
  length, newline, split_at, c_string, lt→ltb, ◌==◌, append_assoc, length-append,
}
use file_system_server.Common.ReadLine.{NoNewline, head_eq, tail_eq, no_bytes}
use file_system_server.Os.{
  Recv, got, read_from, weight, weight_pos, stream, ending, arrived, resumed, ended, lost, waits,
  read_from_cases, FileSystem,
}
use file_system_server.Server.State.{Machine, max_header_len, recv_header}
use file_system_server.Server.Header.{
  split_line, parse_verb, start_request, parse_header_and_transition, recv_header_loop, read_event,
  handle_read_event,
}

-- A C string has no zero byte.
abbrev pub NoZero : List ℕ → Type 0
NoZero [] = Unit
NoZero (c ∷ cs) = ((c == 0) ≡ false) × NoZero cs

c_string_line :
    (line : List ℕ) → NoZero line → c_string (line ++ newline ∷ []) ≡ line ++ newline ∷ []
unfolding c_string
c_string_line [] z = refl
c_string_line (c ∷ cs) z = rw (z.0) (ap (λ t. c ∷ t) (c_string_line cs z.1))

split_newline :
    (line : List ℕ) → NoNewline line → split_at newline (line ++ newline ∷ []) ≡ some (line, [])
unfolding split_at
split_newline [] n = refl
split_newline (c ∷ cs) n = rw (n.0, split_newline cs n.1) refl

module _ (fs : FileSystem) where
  open fs use {Disk}

  -- The connection with the bytes of its header and what is still to come.
  abbrev pub headed : Machine Disk → List ℕ → List Recv → Machine Disk
  headed m buf rs = record m {
    socket = record m.socket { incoming = rs };
    client = record m.client { header_buf = buf };
  }

  -- The line is read up to its newline, and what is behind it is left.
  pub data HeaderRead (m : Machine Disk) (line more buf : List ℕ) (rs : List Recv)
      (out : Machine Disk) : Type 0 where
    header_read :
        (rest : List Recv)
        → out ≡ parse_header_and_transition fs (headed m (buf ++ (line ++ newline ∷ [])) rest)
        → stream rest ≡ more
        → ending rest ≡ ending rs
        → HeaderRead m line more buf rs out

  header_more :
      (m : Machine Disk) (b c : ℕ) (cs more buf : List ℕ) (rs rest : List Recv) (out : Machine Disk)
      → b ≡ c
      → ending rest ≡ ending rs
      → HeaderRead m cs more (buf ++ b ∷ []) rest out
      → HeaderRead m (c ∷ cs) more buf rs out
  header_more m b c cs more buf rs rest out is same (header_read rest' e s x) =
      header_read rest'
        (e
          ∙ ap (λ t. parse_header_and_transition fs (headed m t rest'))
              (append_assoc buf (b ∷ []) (cs ++ newline ∷ []))
          ∙ ap
              (λ z.
                parse_header_and_transition fs (headed m (buf ++ z ∷ (cs ++ newline ∷ [])) rest'))
              is)
        s (x ∙ same)

  header_resumed :
      (m : Machine Disk) (line more buf : List ℕ) (rs rest : List Recv) (out : Machine Disk)
      → ending rest ≡ ending rs
      → HeaderRead m line more buf rest out
      → HeaderRead m line more buf rs out
  header_resumed m line more buf rs rest out same (header_read rest' e s x) =
      header_read rest' e s (x ∙ same)

  header_line_round :
      (fuel : ℕ) (m : Machine Disk) (line more buf : List ℕ) (rs rest : List Recv) (b : ℕ)
      → ((line' buf' : List ℕ)
          → NoNewline line'
          → stream rest ≡ line' ++ newline ∷ more
          → length buf' + length line' < max_header_len - 1
          → HeaderRead m line' more buf' rest (recv_header_loop fs fuel (headed m buf' rest)))
      → NoNewline line
      → length buf + length line < max_header_len - 1
      → read_from 1 rs ≡ got (b ∷ []) rest
      → b ∷ stream rest ≡ line ++ newline ∷ more
      → ending rest ≡ ending rs
      → HeaderRead m line more buf rs (recv_header_loop fs (suc fuel) (headed m buf rs))
  unfolding recv_header_loop
  header_line_round fuel m [] more buf rs rest b keep nn lt r e same =
      rw
        (
          lt→ltb (length buf) (max_header_len - 1) (omega arith),
          r,
          ap (λ z. z == newline) (head_eq e),
          recv_header_loop,
        )
        (header_read rest
          (ap (λ z. parse_header_and_transition fs (headed m (buf ++ z ∷ []) rest)) (head_eq e))
          (tail_eq e) same)
  header_line_round fuel m (c ∷ cs) more buf rs rest b keep nn lt r e same =
      rw
        (
          lt→ltb (length buf) (max_header_len - 1) (omega arith),
          r,
          ap (λ z. z == newline) (head_eq e) ∙ nn.0,
          recv_header_loop,
        )
        (header_more m b c cs more buf rs rest _ (head_eq e) same
          (keep cs (buf ++ b ∷ []) (nn.1) (tail_eq e) (omega (arith, length-append buf (b ∷ [])))))

  pub header_loop-HeaderRead :
      (fuel : ℕ) (m : Machine Disk) (line more buf : List ℕ) (rs : List Recv)
      → weight rs ≤ fuel
      → NoNewline line
      → stream rs ≡ line ++ newline ∷ more
      → length buf + length line < max_header_len - 1
      → HeaderRead m line more buf rs (recv_header_loop fs fuel (headed m buf rs))
  unfolding recv_header_loop
  header_loop-HeaderRead zero m line more buf rs w nn e lt = absurd (omega (arith, weight_pos rs))
  header_loop-HeaderRead (suc fuel) m line more buf rs w nn e lt =
      elim (read_from_cases 1 rs (omega arith)) [
        | arrived b [] rest r s le less same ↦
            header_line_round fuel m line more buf rs rest b
              (λ line' buf' nn' e' lt'.
                header_loop-HeaderRead fuel m line' more buf' rest (omega arith) nn' e' lt')
              nn lt r (s ∙ e) same
        | arrived b (b' ∷ bs) rest r s le less same ↦ absurd (omega arith)
        | resumed rest r s less same ↦
            rw (lt→ltb (length buf) (max_header_len - 1) (omega arith), r, recv_header_loop)
              (header_resumed m line more buf rs rest _ same
                (header_loop-HeaderRead fuel m line more buf rest (omega arith) nn (s ∙ e) lt))
        | ended r s x ↦ absurd (no_bytes line more rs s e)
        | lost rest r s x ↦ absurd (no_bytes line more rs s e)
        | waits r s ↦ absurd (no_bytes line more rs (ap stream s) e)
      ]

  pub parsed :
      (m : Machine Disk) (line : List ℕ) (rest : List Recv)
      → NoZero line
      → NoNewline line
      → parse_header_and_transition fs (headed m (line ++ newline ∷ []) rest)
        ≡ start_request fs
            (parse_verb (split_line line).0)
            (split_line line).1
            (headed m (line ++ newline ∷ []) rest)
  unfolding parse_header_and_transition
  parsed m line rest z n =
      rw (c_string_line line z, split_newline line n, parse_header_and_transition) refl

  -- A new connection to which a line with its newline arrives that fits the header, cut into any pieces
  -- and with any calls interrupted, starts the request that the line says, and keeps what is behind
  -- the line for the handler.
  pub handle_read_event_line :
      (m : Machine Disk) (line more : List ℕ)
      → m.client.state ≡ recv_header
      → m.client.header_buf ≡ []
      → NoZero line
      → NoNewline line
      → length line < max_header_len - 1
      → stream m.socket.incoming ≡ line ++ newline ∷ more
      → (rest : List Recv) × (handle_read_event fs m
          ≡ start_request fs
              (parse_verb (split_line line).0)
              (split_line line).1
              (headed m (line ++ newline ∷ []) rest))
        × (stream rest ≡ more)
  unfolding handle_read_event read_event
  handle_read_event_line m line more st h z n lt e =
      elim (header_loop-HeaderRead (weight m.socket.incoming) m line more [] m.socket.incoming
        (omega arith) n e (omega arith)) [
          | header_read rest out s x ↦ (
            rest,
            ap (λ st'. read_event fs st' m) st
                ∙ ap
                    (λ b.
                      recv_header_loop fs (weight m.socket.incoming)
                        (record m { client = record m.client { header_buf = b } }))
                    h
                ∙ out
                ∙ parsed m line rest z n,
            s,
          )
        ]
