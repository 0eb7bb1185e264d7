-- ===== src/Sessions/Pieces/Whole.antt =====
-- The events of an upload, from the first byte of its request to the answer.
use file_system_server.Base.{
  ℕ, ◌+◌, ◌-◌, ◌^◌, ◌≤◌, ◌<◌, ◌≡◌, refl, sym, subst, ap, ◌∙◌, false, List, [], ◌∷◌, ◌++◌, some,
  arith, length, length-append, take, to_bytes, length-to_bytes, newline, append_assoc, append-nil,
  inl, inr, true-false, ◌⊎◌,
}
use file_system_server.Common.{put}
use file_system_server.Common.ReadLine.{NoNewline}
use file_system_server.Os.{Recv, Send, stream, ending, pending, accepts, FileSystem}
use file_system_server.Server.{Machine, client_create, max_header_len, size_len}
use file_system_server.Server.Header.{start_request, handle_read_event, read_event}
use file_system_server.Server.Header.Line.{NoZero, headed}
use file_system_server.Server.Put.{recv_put_size_handler}
use file_system_server.Server.Put.Upload.{Appends}
use file_system_server.Server.Put.Size.{sizing}
use file_system_server.Client.{command}
use file_system_server.Sessions.Arrivals.{
  arriving, arrived_bytes, IsUnbroken, ending_append, stream_append, read_events,
  read_events-closed, read_events-live, heading, started, heading_event,
}
use file_system_server.Sessions.Pieces.{
  body, asked, Storing, some_in, all_in, Uploading, at_line, at_size, at_file, IsUploaded,
  data_step, size_whole, size_step,
}

module _ (fs : FileSystem) (f : ℕ) (file : Appends fs f) (m : Machine fs.Disk)
    (name contents : List ℕ) (d : fs.Disk) where
  open fs use {Disk, open_write, close_file}
  open file use {content}

  module _ (k : ℕ) (outs : List Send) (o : m.socket.outcomes ≡ accepts k ∷ outs) (le : 3 ≤ k)
      (small : length contents < 256 ^ size_len)
      (opens : open_write (take 1023 (m.temp_dir ++ b'/' ∷ take 255 name)) m.disk ≡ (some f, d))
      (empty : content d ≡ []) where
    -- One event of an upload.
    upload_step :
        (fd : ℕ) (rs : List Recv) (future : List ℕ) (out : Machine Disk)
        → m.client ≡ client_create fd
        → NoZero name
        → NoNewline name
        → length (command put) + length name < max_header_len - 1
        → ending rs ≡ pending
        → out.freed ≡ false
        → Uploading fs f file m name contents d (stream rs ++ future) out
        → Uploading fs f file m name contents d future (handle_read_event fs (arriving rs out))
    unfolding client_create start_request handle_read_event read_event
    upload_step fd rs future out new z nn lt p live (at_line known left is line behind) =
        subst
          (λ q. Uploading fs f file m name contents d future (handle_read_event fs (arriving rs q)))
          (sym is)
          (elim (heading_event fs m put name known left rs (body fs f file m name contents d) future
            tt (ap (λ q. q.state) new) z nn lt line p behind) [
              | heading left' out' line' behind' ↦
                  at_line (known ++ stream rs) left' out' line' behind'
              | started rest out' behind' ends ↦
                  at_size [] m.client.size_buf rest out' ends
                    (let eight : length m.client.size_buf ≡ size_len =
                        ap (λ q. length q.size_buf) new in
                      omega (arith, eight))
                    behind'
            ])
    upload_step fd rs future out new z nn lt p live (at_size known zs rs0 is ends size behind) =
        subst
          (λ q. Uploading fs f file m name contents d future (handle_read_event fs (arriving rs q)))
          (sym is)
          (size_step fs f file m name contents d k outs o le small opens empty known zs (rs0 ++ rs)
            future (ending_append rs0 rs ends ∙ p) size
            (ap (λ q. known ++ (q ++ future)) (stream_append rs0 rs ends)
              ∙ ap (λ q. known ++ q) (append_assoc (stream rs0) (stream rs) future)
              ∙ behind))
    upload_step fd rs future out new z nn lt p live (at_file (some_in e is behind more)) =
        subst
          (λ q. Uploading fs f file m name contents d future (handle_read_event fs (arriving rs q)))
          (sym is)
          (at_file (
            data_step fs f file m name contents d k outs o le small opens empty e rs future p
              behind))
    upload_step fd rs future out new z nn lt p live (at_file (all_in e stored is)) =
        absurd (true-false (sym stored.closed ∙ live))

    all_stored :
        (out : Machine Disk)
        → Storing fs f file m name contents d [] out
        → IsUploaded fs f file m name contents d out
    all_stored out (some_in e is behind pos) = absurd (omega arith)
    all_stored out (all_in e stored is) = (e, stored, is)

    size_event :
        (rs : List Recv) (known zs : List ℕ)
        → handle_read_event fs (
            arriving []
              (sizing fs (asked fs f file m name contents d) rs (known ++ zs) (length known)))
          ≡ recv_put_size_handler fs (
              sizing fs (asked fs f file m name contents d) (rs ++ []) (known ++ zs) (length known))
    unfolding handle_read_event read_event
    size_event rs known zs = refl

    -- All that was to arrive has arrived: one event more ends the upload.
    last_step :
        (out : Machine Disk)
        → m.freed ≡ false
        → Uploading fs f file m name contents d [] out
        → IsUploaded fs f file m name contents d (read_events fs ([] ∷ []) out)
    unfolding read_events
    last_step out live (at_line known [] is line behind) = absurd (omega (arith, ap length behind))
    last_step out live (at_line known (c ∷ left) is line behind) =
        absurd (omega (arith, ap length behind))
    last_step out live (at_size known zs rs is ends size behind) =
        let all : known ++ (stream (rs ++ []) ++ []) ≡ (body fs f file m name contents d) =
          ap (λ q. known ++ (stream q ++ [])) (append-nil rs) ∙ behind in
        let enough : length zs ≤ length (stream (rs ++ [])) = omega (
          arith,
          ap length all,
          length-append known (stream (rs ++ []) ++ []),
          length-append (stream (rs ++ [])) [],
          length-append (to_bytes size_len (length contents)) contents,
          length-to_bytes size_len (length contents),
        ) in
        let whole =
          size_whole fs f file m name contents d k outs o le small opens empty known zs (rs ++ [])
            [] (ap ending (append-nil rs) ∙ ends) size all enough in
        subst (IsUploaded fs f file m name contents d)
          (sym (
            ap (read_events fs ([] ∷ [])) is
            ∙ read_events-live fs [] []
                (sizing fs (asked fs f file m name contents d) rs (known ++ zs) (length known)) live
            ∙ size_event rs known zs))
          (all_stored _ whole)
    last_step out live (at_file (some_in e is behind pos)) = absurd (omega arith)
    last_step out live (at_file (all_in e stored is)) =
        subst (IsUploaded fs f file m name contents d)
          (sym (read_events-closed fs ([] ∷ []) out stored.closed)) (e, stored, is)

    Uploading-live :
        (future : List ℕ) (out : Machine Disk)
        → m.freed ≡ false
        → Uploading fs f file m name contents d future out
        → (out.freed ≡ false) ⊎ IsUploaded fs f file m name contents d out
    Uploading-live future out live (at_line known left is line behind) =
        inl (ap (λ q. q.freed) is ∙ live)
    Uploading-live future out live (at_size known zs rs is ends size behind) =
        inl (ap (λ q. q.freed) is ∙ live)
    Uploading-live future out live (at_file (some_in e is behind pos)) =
        inl (ap (λ q. q.freed) is ∙ live)
    Uploading-live future out live (at_file (all_in e stored is)) = inr (e, stored, is)

    uploads :
        (fd : ℕ) (rss : List (List Recv)) (out : Machine Disk)
        → m.client ≡ client_create fd
        → NoZero name
        → NoNewline name
        → length (command put) + length name < max_header_len - 1
        → m.freed ≡ false
        → IsUnbroken rss
        → Uploading fs f file m name contents d (arrived_bytes rss) out
        → IsUploaded fs f file m name contents d (read_events fs (rss ++ [] ∷ []) out)
    uploads fd [] out new z nn lt live p u = last_step out live u
    uploads fd (rs ∷ rss) out new z nn lt live p u =
        elim (Uploading-live (stream rs ++ arrived_bytes rss) out live u) [
          | inl l ↦
              subst (IsUploaded fs f file m name contents d)
                (sym (read_events-live fs rs (rss ++ [] ∷ []) out l))
                (uploads fd rss _ new z nn lt live p.1
                  (upload_step fd rs (arrived_bytes rss) out new z nn lt p.0 l u))
          | inr e ↦
              subst (IsUploaded fs f file m name contents d)
                (sym (read_events-closed fs (rs ∷ (rss ++ [] ∷ [])) out (e.1).closed)) e
        ]

  -- PUT at the server, in pieces. To a new connection, open and with nothing to read, come the request for
  -- a name without zero bytes and newlines that fits, the size and the bytes of a file of fewer
  -- than 2 ^ 64, cut in any way over any number of events, with calls interrupted; the server can
  -- open the file under the name, empty, and append to it, and its socket takes the answer at once. Then
  -- with one event more the connection is closed: `OK` is sent, the file is closed and holds exactly
  -- the bytes that came, and the name is added to the list.
  pub put_pieces-IsStored :
      (fd k : ℕ) (rss : List (List Recv)) (outs : List Send)
      → m.client ≡ client_create fd
      → m.freed ≡ false
      → m.socket.incoming ≡ []
      → NoZero name
      → NoNewline name
      → length (command put) + length name < max_header_len - 1
      → m.socket.outcomes ≡ accepts k ∷ outs
      → 3 ≤ k
      → length contents < 256 ^ size_len
      → open_write (take 1023 (m.temp_dir ++ b'/' ∷ take 255 name)) m.disk ≡ (some f, d)
      → content d ≡ []
      → IsUnbroken rss
      → arrived_bytes rss
        ≡ (command put ++ name) ++ newline ∷ (to_bytes size_len (length contents) ++ contents)
      → IsUploaded fs f file m name contents d (read_events fs (rss ++ [] ∷ []) m)
  unfolding client_create
  put_pieces-IsStored fd k rss outs new live nothing z nn lt o le small opens empty p e =
      let start : m ≡ headed fs m [] [] =
        ap (λ b. headed fs m b m.socket.incoming) (ap (λ q. q.header_buf) new)
        ∙ ap (headed fs m []) nothing in
      uploads k outs o le small opens empty fd rss m new z nn lt live p
        (at_line [] (command put ++ name) start refl e)
