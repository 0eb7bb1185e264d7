-- ===== src/Sessions/Arrivals.antt =====
-- A request that arrives over several events: what the server makes of each.
use file_system_server.Base.{
  ℕ, ◌+◌, ◌-◌, ◌≤◌, ◌<◌, ◌≡◌, refl, sym, subst, ap, ◌∙◌, true, false, if◌then◌else◌, List, [], ◌∷◌,
  ◌++◌, some, arith, length, length-append, newline, append_assoc, ltb, Bool-cases, inl, inr,
}
use file_system_server.Common.{Verb}
use file_system_server.Common.ReadLine.{NoNewline, head_eq, tail_eq}
use file_system_server.Os.{
  Recv, weight, stream, ending, pending, FileSystem, bytes, interrupted, broken, closed,
}
use file_system_server.Server.{Machine, max_header_len, recv_header}
use file_system_server.Server.Header.{
  split_line, start_request, recv_header_loop, read_event, handle_read_event,
  parse_header_and_transition,
}
use file_system_server.Server.Header.Line.{
  NoZero, headed, header_read, header_loop-HeaderRead, parsed,
}
use file_system_server.Server.Header.Pieces.{header_loop_waits}
use file_system_server.Server.Put.{with_incoming}
use file_system_server.Client.{command}
use file_system_server.Client.Requests.{NeedsName, command-split, command-NoZero, command-NoNewline}

-- More has arrived at the socket of a connection.
abbrev pub arriving : {Disk : Type 0} → List Recv → Machine Disk → Machine Disk
arriving rs m = with_incoming (m.socket.incoming ++ rs) m

-- All bytes of several arrivals, behind each of which more may come.
abbrev pub arrived_bytes : List (List Recv) → List ℕ
arrived_bytes [] = []
arrived_bytes (rs ∷ rss) = stream rs ++ arrived_bytes rss

abbrev pub IsUnbroken : List (List Recv) → Type 0
IsUnbroken [] = Unit
IsUnbroken (rs ∷ rss) = (ending rs ≡ pending) × IsUnbroken rss

pub ending_append : (rs ss : List Recv) → ending rs ≡ pending → ending (rs ++ ss) ≡ ending ss
ending_append [] ss p = refl
ending_append (bytes b bs ∷ rs) ss p = ending_append rs ss p
ending_append (interrupted ∷ rs) ss p = ending_append rs ss p
ending_append (broken ∷ rs) ss p = cc
ending_append (closed ∷ rs) ss p = cc

pub stream_append :
    (rs ss : List Recv) → ending rs ≡ pending → stream (rs ++ ss) ≡ stream rs ++ stream ss
stream_append [] ss p = refl
stream_append (bytes b bs ∷ rs) ss p =
    ap (λ z. b ∷ (bs ++ z)) (stream_append rs ss p)
    ∙ ap (λ z. b ∷ z) (sym (append_assoc bs (stream rs) (stream ss)))
stream_append (interrupted ∷ rs) ss p = stream_append rs ss p
stream_append (broken ∷ rs) ss p = cc
stream_append (closed ∷ rs) ss p = cc

-- Two ways to cut one list: the first part of one is within the first part of the other.
pub cut_within :
    (xs ys us vs : List ℕ)
    → xs ++ ys ≡ us ++ vs
    → length xs ≤ length us
    → (ws : List ℕ) × (us ≡ xs ++ ws) × (ys ≡ ws ++ vs)
cut_within [] ys us vs e le = (us, refl, e)
cut_within (x ∷ xs) ys [] vs e le = absurd (omega arith)
cut_within (x ∷ xs) ys (u ∷ us) vs e le =
    let (ws, p, q) = cut_within xs ys us vs (tail_eq e) (omega arith) in
    (ws, ap (λ z. z ∷ us) (sym (head_eq e)) ∙ ap (λ z. x ∷ z) p, q)

pub cut_exact :
    (xs ys us vs : List ℕ) → xs ++ ys ≡ us ++ vs → length xs ≡ length us → (xs ≡ us) × (ys ≡ vs)
cut_exact [] ys [] vs e l = (refl, e)
cut_exact [] ys (u ∷ us) vs e l = absurd (omega arith)
cut_exact (x ∷ xs) ys [] vs e l = absurd (omega arith)
cut_exact (x ∷ xs) ys (u ∷ us) vs e l =
    let (p, q) = cut_exact xs ys us vs (tail_eq e) (omega arith) in
    (ap (λ z. z ∷ xs) (head_eq e) ∙ ap (λ z. u ∷ z) p, q)

NoNewline-front : (xs ys : List ℕ) → NoNewline (xs ++ ys) → NoNewline xs
NoNewline-front [] ys h = tt
NoNewline-front (x ∷ xs) ys h = (h.0, NoNewline-front xs ys h.1)

NoNewline-back : (xs ys : List ℕ) → NoNewline (xs ++ ys) → NoNewline ys
NoNewline-back [] ys h = h
NoNewline-back (x ∷ xs) ys h = NoNewline-back xs ys h.1

module _ (fs : FileSystem) where
  open fs use {Disk}

  -- The read events of a connection, with what arrives before each; a closed connection has no more.
  unfoldable pub read_events : List (List Recv) → Machine Disk → Machine Disk
  read_events [] m = m
  read_events (rs ∷ rss) m =
      let later = read_events rss (handle_read_event fs (arriving rs m)) in
      if m.freed then m else later

  pub read_events-closed :
      (rss : List (List Recv)) (m : Machine Disk) → m.freed ≡ true → read_events rss m ≡ m
  unfolding read_events
  read_events-closed [] m e = refl
  read_events-closed (rs ∷ rss) m e =
      ap (λ b. if b then m else read_events rss (handle_read_event fs (arriving rs m))) e

  pub read_events-live :
      (rs : List Recv) (rss : List (List Recv)) (m : Machine Disk)
      → m.freed ≡ false
      → read_events (rs ∷ rss) m ≡ read_events rss (handle_read_event fs (arriving rs m))
  unfolding read_events
  read_events-live rs rss m e =
      ap (λ b. if b then m else read_events rss (handle_read_event fs (arriving rs m))) e

  -- A part of the line of a new connection is in; or the line is complete and the request is started.
  pub data Heads (m : Machine Disk) (v : Verb) (name known : List ℕ) (rs : List Recv)
      (body future : List ℕ) (out : Machine Disk) : Type 0 where
    heading :
        (left : List ℕ)
        → out ≡ headed fs m (known ++ stream rs) []
        → (known ++ stream rs) ++ left ≡ command v ++ name
        → future ≡ left ++ newline ∷ body
        → Heads m v name known rs body future out
    started :
        (rest : List Recv)
        → out
          ≡ start_request fs v (some name) (headed fs m ((command v ++ name) ++ newline ∷ []) rest)
        → stream rest ++ future ≡ body
        → ending rest ≡ pending
        → Heads m v name known rs body future out

  -- One event at a connection that has a part of its line.
  pub heading_event :
      (m : Machine Disk) (v : Verb) (name known left : List ℕ) (rs : List Recv)
      (body future : List ℕ)
      → NeedsName v
      → m.client.state ≡ recv_header
      → NoZero name
      → NoNewline name
      → length (command v) + length name < max_header_len - 1
      → known ++ left ≡ command v ++ name
      → ending rs ≡ pending
      → stream rs ++ future ≡ left ++ newline ∷ body
      → Heads m v name known rs body future (handle_read_event fs (headed fs m known rs))
  unfolding handle_read_event read_event
  heading_event m v name known left rs body future needs st z nn lt line p e =
      subst (λ st'. Heads m v name known rs body future (read_event fs st' (headed fs m known rs)))
        (sym st)
        (elim (Bool-cases (ltb (length left) (length (stream rs)))) [
          | inl x ↦
              complete (cut_within left (newline ∷ body) (stream rs) future (sym e) (ground arith))
                (ground arith)
          | inr x ↦ partial (cut_within (stream rs) future left (newline ∷ body) e (ground arith))
        ])
    where
      size : length known + length left ≡ length (command v) + length name
      size = omega (arith, ap length line, length-append known left, length-append (command v) name)

      whole_NoNewline : NoNewline (known ++ left)
      whole_NoNewline = subst NoNewline (sym line) (command-NoNewline v name nn)

      partial :
          (ws : List ℕ) × (left ≡ stream rs ++ ws) × (future ≡ ws ++ newline ∷ body)
          → Heads m v name known rs body future
              (recv_header_loop fs (weight rs) (headed fs m known rs))
      partial (ws, within, behind) =
          heading ws
            (header_loop_waits fs (weight rs) m known rs (omega arith)
              (NoNewline-front (stream rs) ws
                (subst NoNewline within (NoNewline-back known left whole_NoNewline)))
              p (omega (arith, ap length within, length-append (stream rs) ws, size)))
            (append_assoc known (stream rs) ws ∙ ap (λ q. known ++ q) (sym within) ∙ line) behind

      complete :
          (ws : List ℕ) × (stream rs ≡ left ++ ws) × (newline ∷ body ≡ ws ++ future)
          → length left < length (stream rs)
          → Heads m v name known rs body future
              (recv_header_loop fs (weight rs) (headed fs m known rs))
      complete ([], within, behind) more =
          absurd (omega (arith, ap length within, length-append left []))
      complete (w ∷ ws, within, behind) more =
          elim (header_loop-HeaderRead fs (weight rs) m left ws known rs (omega arith)
            (NoNewline-back known left whole_NoNewline)
            (within ∙ ap (λ q. left ++ q ∷ ws) (sym (head_eq behind))) (omega (arith, size))) [
              | header_read rest out s ends ↦
                  started rest
                    (out
                      ∙ ap (λ q. parse_header_and_transition fs (headed fs m q rest))
                          (sym (append_assoc known left (newline ∷ []))
                            ∙ ap (λ q. q ++ newline ∷ []) line)
                      ∙ parsed fs m (command v ++ name) rest (command-NoZero v name z)
                          (command-NoNewline v name nn)
                      ∙ ap
                          (λ u.
                            start_request fs u (split_line (command v ++ name)).1
                              (headed fs m ((command v ++ name) ++ newline ∷ []) rest))
                          (command-split v name needs).0
                      ∙ ap
                          (λ o.
                            start_request fs v o
                              (headed fs m ((command v ++ name) ++ newline ∷ []) rest))
                          (command-split v name needs).1)
                    (ap (λ q. q ++ future) s ∙ sym (tail_eq behind)) (ends ∙ p)
            ]
