-- ===== src/Server/Answer.antt =====
-- server.c: what a connection has still to send in each state, and what becomes of it when the socket has
-- room for a part.
pub mod Step
pub mod Handlers
pub mod Status
pub mod Events
pub mod Rounds
pub mod First
use file_system_server.Base.{
  ℕ, ◌+◌, ◌-◌, ◌≤◌, ◌<◌, ◌≡◌, ap, sym, subst, ◌∙◌, arith, true, false, List, [], ◌∷◌, ◌++◌, Option,
  none, some, length, take, drop, to_bytes, Bool,
}
use file_system_server.Common.{Verb, get, list}
use file_system_server.Format.{err_bad_request}
use file_system_server.Collections.Vector.{Vector}
use file_system_server.EventLoop.{event_write}
use file_system_server.Os.{FileSystem, IsTaking}
use file_system_server.Server.State.{
  ConnState, send_ok, send_error, send_get_size, send_get_data, send_list_data, Client, Machine,
  size_len,
}
use file_system_server.Server.Listing.{build_list_buffer}
use file_system_server.Server.Response.{error, status_text, response_left}
use file_system_server.Server.Get.{size_prepared, list_left}

-- A response of which a part is unsent.
abbrev pub IsPending : Client → Type 0
IsPending c =
    (c.simple_response_sent < c.simple_response_len)
    × (c.simple_response_len ≤ length c.simple_response_buf)

-- A buffer with its length, or the error where there is none.
abbrev pub list_text : Option (List ℕ × ℕ) → List ℕ
list_text none = status_text (error err_bad_request)
list_text (some (buffer, len)) = take (len - 0) (drop 0 buffer)

abbrev pub IsFilled : Option (List ℕ × ℕ) → Type 0
IsFilled none = Unit
IsFilled (some (buffer, len)) = (0 < len) × (len ≤ length buffer)

-- What comes behind the line `OK`, with the size of the file, its bytes and the list.
abbrev pub body : Verb → ℕ → List ℕ → Option (List ℕ × ℕ) → List ℕ
body get size bytes built = to_bytes size_len size ++ bytes
body list size bytes built = list_text built
body _ size bytes built = []

abbrev pub IsSupplied : Verb → Type 0 → Option (List ℕ × ℕ) → Type 0
IsSupplied get ready built = ready
IsSupplied list ready built = IsFilled built
IsSupplied _ ready built = Unit

module _ (fs : FileSystem) (content : fs.Disk → List ℕ) where
  open fs use {Disk, pread}

  -- `pread` returns what stands at the offset, as far as the bytes go.
  abbrev pub IsReadable : ℕ → Type 0
  IsReadable f = (n off : ℕ) (d : Disk) → pread f n off d ≡ some (take n (drop off (content d)))

  -- The file is open, has the size that was announced, and no more than that is sent of it.
  abbrev pub IsReady : Machine Disk → Type 0
  IsReady m =
      (f : ℕ) × (m.client.file_fd ≡ some f)
      × IsReadable f
      × (length (content m.disk) ≡ m.client.file_size)
      × (m.client.bytes_transferred ≤ m.client.file_size)

  abbrev pub unsent : Machine Disk → List ℕ
  unsent m = drop m.client.bytes_transferred (content m.disk)

  abbrev pub built : Machine Disk → Option (List ℕ × ℕ)
  built m = build_list_buffer m.memory m.server_files

  -- What a connection has still to send.
  abbrev pub owed_in : ConnState → Machine Disk → List ℕ
  owed_in send_ok m =
      response_left m.client ++ body m.client.request_verb m.client.file_size (unsent m) (built m)
  owed_in send_error m = response_left m.client
  owed_in send_get_size m = response_left (size_prepared fs m).client ++ unsent m
  owed_in send_get_data m = unsent m
  owed_in send_list_data m = list_left fs m.client
  owed_in _ m = []

  abbrev pub owed : Machine Disk → List ℕ
  owed m = owed_in m.client.state m

  -- The buffers of a state hold what is to be sent.
  abbrev pub IsFormed : ConnState → Machine Disk → Type 0
  IsFormed send_ok m = IsPending m.client × IsSupplied m.client.request_verb (IsReady m) (built m)
  IsFormed send_error m = IsPending m.client
  IsFormed send_get_size m = IsPending (size_prepared fs m).client × IsReady m
  IsFormed send_get_data m = IsReady m
  IsFormed send_list_data m =
      (m.client.list_sent < m.client.list_len) × (m.client.list_len ≤ length m.client.list_buf)
  IsFormed _ m = ⊥

  -- A connection that is in the middle of an answer, and is watched for writing.
  pub record IsAnswering (m : Machine Disk) : Type 0 where
    pub live : m.freed ≡ false
    pub watched : m.interest ≡ some event_write
    pub formed : IsFormed m.client.state m

  -- What one event comes to: the answer is complete and the connection closed; or a part of it is
  -- sent, and the connection is still answering; or the socket failed, the connection is closed, and
  -- a first part was sent.
  pub data Answers (m : Machine Disk) (out : Machine Disk) : Type 0 where
    complete : out.freed ≡ true → out.socket.sent ≡ m.socket.sent ++ owed m → Answers m out
    waiting :
        IsAnswering out
        → out.socket.sent ++ owed out ≡ m.socket.sent ++ owed m
        → length (owed out) ≤ length (owed m)
        → (IsTaking m.socket.outcomes
            → 0 < length m.socket.outcomes
            → length (owed out) < length (owed m))
        → Answers m out
    failing :
        (left : List ℕ)
        → out.freed ≡ true
        → out.socket.sent ++ left ≡ m.socket.sent ++ owed m
        → (IsTaking m.socket.outcomes → ⊥)
        → Answers m out

  -- A write within the event that leaves the connection at `m'`.
  pub Answers-step :
      (m m' out : Machine Disk)
      → m'.socket.sent ++ owed m' ≡ m.socket.sent ++ owed m
      → (IsTaking m.socket.outcomes
          → (length (owed m') < length (owed m)) × IsTaking m'.socket.outcomes)
      → length (owed m') ≤ length (owed m)
      → Answers m' out
      → Answers m out
  Answers-step m m' out e more le (complete x y) = complete x (y ∙ e)
  Answers-step m m' out e more le (waiting a q less shrinks) =
      waiting a (q ∙ e) (omega arith) (λ h pos. omega (arith, less, (more h).0))
  Answers-step m m' out e more le (failing left x y dead) =
      failing left x (y ∙ e) (λ h. dead (more h).1)

  -- Two views of one connection that owe the same.
  pub Answers-same :
      (m m' out : Machine Disk)
      → m'.socket ≡ m.socket
      → owed m' ≡ owed m
      → Answers m' out
      → Answers m out
  Answers-same m m' out s e (complete x y) =
      complete x (y ∙ ap (λ z. z.sent ++ owed m') s ∙ ap (λ z. m.socket.sent ++ z) e)
  Answers-same m m' out s e (waiting a q less shrinks) =
      waiting a (q ∙ ap (λ z. z.sent ++ owed m') s ∙ ap (λ z. m.socket.sent ++ z) e)
        (omega (arith, ap length e))
        (λ h pos. omega (
          arith,
          ap length e,
          shrinks (subst (λ z. IsTaking z.outcomes) (sym s) h)
              (subst (λ z. 0 < length z.outcomes) (sym s) pos),
        ))
  Answers-same m m' out s e (failing left x y dead) =
      failing left x (y ∙ ap (λ z. z.sent ++ owed m') s ∙ ap (λ z. m.socket.sent ++ z) e)
        (λ h. dead (subst (λ z. IsTaking z.outcomes) (sym s) h))
