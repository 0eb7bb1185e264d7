-- ===== src/Sessions/Pieces.antt =====
-- PUT, when its bytes arrive over any number of events.
pub mod Whole
pub mod Upload
use file_system_server.Base.{
  ℕ, zero, suc, ◌+◌, ◌-◌, ◌^◌, ◌≤◌, ◌<◌, ◌≡◌, refl, sym, subst, ap, ◌∙◌, true, false, if◌then◌else◌,
  List, [], ◌∷◌, ◌++◌, none, some, arith, length, length-append, length-take, take, drop, to_bytes,
  length-to_bytes, from_bytes-to_bytes, newline, append_assoc, append-nil, take-append-drop, ltb,
  Bool-cases, inl, inr, codes, true-false, ◌⊎◌,
}
use file_system_server.Common.{put}
use file_system_server.Common.ReadLine.{NoNewline}
use file_system_server.Os.{Recv, Send, weight, stream, ending, pending, accepts, FileSystem}
use file_system_server.Server.{
  Machine, client_create, max_header_len, size_len, recv_put_data, expected_size,
}
use file_system_server.Server.Header.{
  start_request, start_put, set_verb, handle_read_event, read_event,
}
use file_system_server.Server.Header.Line.{NoZero, headed}
use file_system_server.Server.Put.{
  stored_ok, size_received, recv_put_size_loop, recv_put_size_handler, upload_opened,
  recv_put_data_handler,
}
use file_system_server.Server.Put.Upload.{Appends, uploading}
use file_system_server.Server.Put.Outcome.{uploaded, handler-Receives, recv_put_data_full}
use file_system_server.Server.Put.Size.{sizing, recv_put_size_loop-SizeRead}
use file_system_server.Server.Put.Partial.{recv_put_size_loop-SizeWaits}
use file_system_server.Client.{command}
use file_system_server.Server.Put.Stored.{IsStored, stored_ok-IsStored}
use file_system_server.Sessions.Arrivals.{
  arriving, arrived_bytes, IsUnbroken, ending_append, stream_append, cut_exact, read_events,
  read_events-closed, read_events-live, heading, started, heading_event,
}

module _ (fs : FileSystem) (f : ℕ) (file : Appends fs f) (m : Machine fs.Disk)
    (name contents : List ℕ) (d : fs.Disk) where
  open fs use {Disk, open_write, close_file}
  open file use {content}

  -- What is sent behind the line.
  abbrev pub body : List ℕ
  body = to_bytes size_len (length contents) ++ contents

  -- The connection behind the line.
  abbrev pub asked : Machine Disk
  asked = start_put fs name (set_verb put (headed fs m ((command put ++ name) ++ newline ∷ []) []))

  -- The connection whose file is open.
  abbrev pub opened : Machine Disk
  opened = record asked {
    disk = d;
    client = record asked.client {
      size_buf = to_bytes size_len (length contents);
      bytes_transferred = 0;
      file_fd = some f;
      state = recv_put_data;
    };
  }

  -- The open file has a part of the bytes; or it is closed with all of them, and the client is told.
  pub data Storing (future : List ℕ) (out : Machine Disk) : Type 0 where
    some_in :
        (e : Disk)
        → out ≡ uploading fs f file opened [] e (length (content e))
        → content e ++ future ≡ contents
        → 0 < length future
        → Storing future out
    all_in :
        (e : Disk)
        → IsStored fs (take 255 name) m (close_file f e) out
        → content e ≡ contents
        → Storing future out

  -- How far an upload is, with the bytes that will arrive.
  pub data Uploading (future : List ℕ) (out : Machine Disk) : Type 0 where
    at_line :
        (known left : List ℕ)
        → out ≡ headed fs m known []
        → known ++ left ≡ command put ++ name
        → future ≡ left ++ newline ∷ body
        → Uploading future out
    at_size :
        (known zs : List ℕ) (rs : List Recv)
        → out ≡ sizing fs asked rs (known ++ zs) (length known)
        → ending rs ≡ pending
        → length known + length zs ≡ size_len
        → known ++ (stream rs ++ future) ≡ body
        → Uploading future out
    at_file : Storing future out → Uploading future out

  -- The client has its answer, and the closed file its bytes.
  abbrev pub IsUploaded : Machine Disk → Type 0
  IsUploaded out =
      (e : Disk) × IsStored fs (take 255 name) m (close_file f e) out × (content e ≡ contents)

  -- The server can open the file, empty, the client's file has a size of eight bytes, and the socket
  -- takes the answer at once.
  module _ (k : ℕ) (outs : List Send) (o : m.socket.outcomes ≡ accepts k ∷ outs) (le : 3 ≤ k)
      (small : length contents < 256 ^ size_len)
      (opens : open_write (take 1023 (m.temp_dir ++ b'/' ∷ take 255 name)) m.disk ≡ (some f, d))
      (empty : content d ≡ []) where
    -- The file is open, and these bytes can be read.
    pub data_step :
        (e : Disk) (rs : List Recv) (future : List ℕ)
        → ending rs ≡ pending
        → content e ++ (stream rs ++ future) ≡ contents
        → Storing future
            (recv_put_data_handler fs (uploading fs f file opened rs e (length (content e))))
    data_step e rs future p is =
        let size : expected_size opened.client ≡ length contents =
          from_bytes-to_bytes size_len (length contents) small in
        let now = uploading fs f file opened rs e (length (content e)) in
        let total : length contents ≡ length (content e) + (length (stream rs) + length future) =
          omega (
            arith,
            ap length is,
            length-append (content e) (stream rs ++ future),
            length-append (stream rs) future,
          ) in
        elim (Bool-cases (ltb 0 (length future))) [
          | inl x ↦
              let (e', out, kept) =
                (handler-Receives fs f file now (length contents - length (content e)) refl refl
                    (omega (arith, total, size))).short
                  (ground arith) p in
              let long : length (content e') ≡ length (content e) + length (stream rs) =
                ap length kept ∙ length-append (content e) (stream rs) in
              some_in e' (out ∙ ap (uploading fs f file opened [] e') (sym long))
                (ap (λ q. q ++ future) kept ∙ append_assoc (content e) (stream rs) future ∙ is)
                (ground arith)
          | inr x ↦
              let (rest, e', out, kept) =
                recv_put_data_full fs f file now refl refl (ground arith) in
              let end =
                stored_ok-IsStored fs (uploaded fs f file now rest e') k outs refl refl o le in
              all_in e'
                (record {
                  closed = ap (λ q. q.freed) out ∙ end.closed;
                  disk = ap (λ q. q.disk) out ∙ end.disk;
                  answered = ap (λ q. q.socket.sent) out ∙ end.answered;
                  names = ap (λ q. q.server_files) out ∙ end.names;
                })
                (kept ∙ no_more x)
        ]
      where
        no_more : ltb 0 (length future) ≡ false → content e ++ stream rs ≡ contents
        no_more x = none_left future x refl
          where
            none_left :
                (bs : List ℕ)
                → ltb 0 (length bs) ≡ false
                → future ≡ bs
                → content e ++ stream rs ≡ contents
            none_left [] y q =
                sym (append-nil (content e ++ stream rs))
                ∙ ap (λ z. (content e ++ stream rs) ++ z) (sym q)
                ∙ append_assoc (content e) (stream rs) future
                ∙ is
            none_left (b ∷ bs) y q = absurd (ground arith)

    -- The size is complete.
    size_done :
        (head : List ℕ) (rest : List Recv) (future : List ℕ)
        → ending rest ≡ pending
        → head ≡ to_bytes size_len (length contents)
        → stream rest ++ future ≡ contents
        → Storing future (size_received fs (sizing fs asked rest head size_len))
    unfolding size_received
    size_done head rest future p is behind =
        let at : size_received fs (sizing fs asked rest head size_len)
            ≡ recv_put_data_handler fs (uploading fs f file opened rest d (length (content d))) =
          ap (λ r. upload_opened fs r (sizing fs asked rest head 0)) opens
          ∙ ap
              (λ h. recv_put_data_handler fs (record (uploading fs f file opened rest d 0) {
                client = record (uploading fs f file opened rest d 0).client { size_buf = h };
              }))
              is
          ∙ ap (λ t. recv_put_data_handler fs (uploading fs f file opened rest d t))
              (sym (ap length empty)) in
        subst (Storing future) (sym at)
          (data_step d rest future p (ap (λ q. q ++ (stream rest ++ future)) empty ∙ behind))

    pub size_whole :
        (known zs : List ℕ) (rs : List Recv) (future : List ℕ)
        → ending rs ≡ pending
        → length known + length zs ≡ size_len
        → known ++ (stream rs ++ future) ≡ body
        → length zs ≤ length (stream rs)
        → Storing future
            (recv_put_size_handler fs (sizing fs asked rs (known ++ zs) (length known)))
    unfolding recv_put_size_handler
    size_whole known zs rs future p size is enough =
        let want : ℕ = length zs in
        let r =
          recv_put_size_loop-SizeRead fs (weight rs) want asked known zs rs (omega arith) size refl
            enough in
        let front : List ℕ = known ++ take want (stream rs) in
        let parts : front ++ (drop want (stream rs) ++ future) ≡ body =
          append_assoc known (take want (stream rs)) (drop want (stream rs) ++ future)
          ∙ ap (λ q. known ++ q)
              (sym (append_assoc (take want (stream rs)) (drop want (stream rs)) future)
                ∙ ap (λ q. q ++ future) (take-append-drop want (stream rs)))
          ∙ is in
        let (head, behind) =
          cut_exact front (drop want (stream rs) ++ future) (to_bytes size_len (length contents))
            contents parts
            (omega (
              arith,
              length-append known (take want (stream rs)),
              length-take want (stream rs),
              length-to_bytes size_len (length contents),
            )) in
        subst (Storing future) (sym r.result)
          (size_done front r.rest future (r.ends ∙ p) head (ap (λ q. q ++ future) r.left ∙ behind))

    pub size_step :
        (known zs : List ℕ) (rs : List Recv) (future : List ℕ)
        → ending rs ≡ pending
        → length known + length zs ≡ size_len
        → known ++ (stream rs ++ future) ≡ body
        → Uploading future
            (recv_put_size_handler fs (sizing fs asked rs (known ++ zs) (length known)))
    unfolding recv_put_size_handler
    size_step known zs rs future p size is =
        elim (Bool-cases (ltb (length (stream rs)) (length zs))) [
          | inl x ↦
              let w =
                recv_put_size_loop-SizeWaits fs (weight rs) (length zs - length (stream rs) - 1)
                  asked known zs rs (omega arith) p (ground arith) (ground arith) in
              at_size (known ++ stream rs) w.zs [] w.result refl
                (let short : length (stream rs) < length zs = ground arith in
                  omega (arith, w.size, length-append known (stream rs)))
                (append_assoc known (stream rs) future ∙ is)
          | inr x ↦ at_file (size_whole known zs rs future p size is (ground arith))
        ]
