-- ===== src/Server/Answer/Rounds.antt =====
-- The write events of a connection, one behind the other, with the room that the socket has at each.
use file_system_server.Base.{
  ℕ, ◌≤◌, ◌<◌, ◌≡◌, refl, sym, subst, ap, ◌∙◌, arith, true, false, Bool, true-false, List, [], ◌∷◌,
  ◌++◌, length, append-nil, Bool-cases, inl, inr, ◌==◌, if◌then◌else◌,
}
use file_system_server.Os.{Send, FileSystem, IsTaking}
use file_system_server.Server.State.{
  ConnState, recv_header, recv_put_size, recv_put_data, send_ok, send_error, send_get_size,
  send_get_data, send_list_data, done, Machine,
}
use file_system_server.Server.Events.{handle_write_event}
use file_system_server.Server.Get.{size_filled}
use file_system_server.Server.Answer.{
  owed, owed_in, IsFormed, IsPending, IsReady, IsAnswering, Answers, complete, waiting, failing,
}
use file_system_server.Server.Answer.Events.{handle_write_event-Answers}

-- The socket of a connection, with what its next writes do.
abbrev pub with_outcomes : {Disk : Type 0} → List Send → Machine Disk → Machine Disk
with_outcomes o m = record m { socket = record m.socket { outcomes = o } }

-- At each event the socket takes a byte at least with each write, and has room for one.
abbrev pub IsSteady : List (List Send) → Type 0
IsSteady [] = Unit
IsSteady (o ∷ os) = (IsTaking o) × (0 < length o) × IsSteady os

module _ (fs : FileSystem) where
  open fs use {Disk}

  -- A closed connection has no more events.
  unfoldable pub write_events : List (List Send) → Machine Disk → Machine Disk
  write_events [] m = m
  write_events (o ∷ os) m =
      let later = write_events os (handle_write_event fs (with_outcomes o m)) in
      if m.freed then m else later

  write_events-closed :
      (os : List (List Send)) (m : Machine Disk) → m.freed ≡ true → write_events os m ≡ m
  unfolding write_events
  write_events-closed [] m e = refl
  write_events-closed (o ∷ os) m e =
      ap (λ b. if b then m else write_events os (handle_write_event fs (with_outcomes o m))) e

  write_events-live :
      (o : List Send) (os : List (List Send)) (m : Machine Disk)
      → m.freed ≡ false
      → write_events (o ∷ os) m ≡ write_events os (handle_write_event fs (with_outcomes o m))
  unfolding write_events
  write_events-live o os m e =
      ap (λ b. if b then m else write_events os (handle_write_event fs (with_outcomes o m))) e

  module _ (content : Disk → List ℕ) where
    owed_outcomes :
        (st : ConnState) (o : List Send) (m : Machine Disk)
        → owed_in fs content st (with_outcomes o m) ≡ owed_in fs content st m
    owed_outcomes send_get_size o m = elim (Bool-cases (m.client.simple_response_len == 0)) [
      | inl x ↦ rw x refl
      | inr x ↦ rw x refl
    ]
    owed_outcomes _ o m = refl

    IsFormed-outcomes :
        (st : ConnState) (o : List Send) (m : Machine Disk)
        → IsFormed fs content st m
        → IsFormed fs content st (with_outcomes o m)
    IsFormed-outcomes send_get_size o m h = sized (m.client.simple_response_len == 0) h
      where
        sized :
            (b : Bool)
            → IsPending (if b then size_filled fs m else m).client × IsReady fs content m
            → IsPending (if b then size_filled fs (with_outcomes o m) else with_outcomes o m).client
              × IsReady fs content m
        sized true h = h
        sized false h = h
    IsFormed-outcomes recv_header o m h = absurd h
    IsFormed-outcomes recv_put_size o m h = absurd h
    IsFormed-outcomes recv_put_data o m h = absurd h
    IsFormed-outcomes done o m h = absurd h
    IsFormed-outcomes send_ok o m h = h
    IsFormed-outcomes send_error o m h = h
    IsFormed-outcomes send_get_data o m h = h
    IsFormed-outcomes send_list_data o m h = h

    event-Answers :
        (o : List Send) (m : Machine Disk)
        → IsAnswering fs content m
        → Answers fs content (with_outcomes o m) (handle_write_event fs (with_outcomes o m))
    event-Answers o m a = handle_write_event-Answers fs content (with_outcomes o m) (record {
      live = a.live;
      watched = a.watched;
      formed = IsFormed-outcomes m.client.state o m a.formed;
    })

    kept_owed :
        (o : List Send) (m : Machine Disk) {bs : List ℕ}
        → bs ≡ m.socket.sent ++ owed fs content (with_outcomes o m)
        → bs ≡ m.socket.sent ++ owed fs content m
    kept_owed o m e = e ∙ ap (λ z. m.socket.sent ++ z) (owed_outcomes m.client.state o m)

    -- Where a connection stands in its answer.
    pub record Stands (m : Machine Disk) (out : Machine Disk) : Type 0 where
      pub left : List ℕ
      pub kept : out.socket.sent ++ left ≡ m.socket.sent ++ owed fs content m
      pub going : out.freed ≡ false → IsAnswering fs content out × (owed fs content out ≡ left)

    closed_going : (out : Machine Disk) (P : Type 0) → out.freed ≡ true → out.freed ≡ false → P
    closed_going out P c l = absurd (true-false (sym c ∙ l))

    -- The connection is closed with the whole answer sent.
    pub record IsDelivered (m : Machine Disk) (out : Machine Disk) : Type 0 where
      pub closed : out.freed ≡ true
      pub all_sent : out.socket.sent ≡ m.socket.sent ++ owed fs content m

    round-Stands :
        (o : List Send) (os : List (List Send)) (m out : Machine Disk)
        → ((m' : Machine Disk) → IsAnswering fs content m' → Stands m' (write_events os m'))
        → IsAnswering fs content m
        → Answers fs content (with_outcomes o m) out
        → Stands m (write_events os out)
    round-Stands o os m out keep a (complete closed sent) =
        rw (write_events-closed os out closed) (record {
          left = [];
          kept = append-nil out.socket.sent ∙ kept_owed o m sent;
          going = λ l. closed_going out _ closed l;
        })
    round-Stands o os m out keep a (waiting b same le less) =
        let s = keep out b in
        record { left = s.left; kept = kept_owed o m (s.kept ∙ same); going = s.going }
    round-Stands o os m out keep a (failing left closed sent dead) =
        rw (write_events-closed os out closed) (record {
          left = left;
          kept = kept_owed o m sent;
          going = λ l. closed_going out _ closed l;
        })

    -- For a connection in the middle of an answer: it is watched for writing, its buffers hold what is
    -- unsent, and where the file is due, it is open, readable and of the announced size. Whatever the
    -- socket does at each of any number of write events: what the connection has sent is a first part of
    -- what it owed, and while it is open, it is in the middle of an answer, watched for writing, and
    -- owes exactly the rest.
    pub write_events-Stands :
        (os : List (List Send)) (m : Machine Disk)
        → IsAnswering fs content m
        → Stands m (write_events os m)
    unfolding write_events
    write_events-Stands [] m a = record {
      left = owed fs content m;
      kept = refl;
      going = λ l. (a, refl);
    }
    write_events-Stands (o ∷ os) m a =
        subst (Stands m) (sym (write_events-live o os m a.live))
          (round-Stands o os m _ (write_events-Stands os) a (event-Answers o m a))

    pub round-IsDelivered :
        (o : List Send) (os : List (List Send)) (m out : Machine Disk)
        → ((m' : Machine Disk)
            → IsAnswering fs content m'
            → length (owed fs content m') < length os
            → IsDelivered m' (write_events os m'))
        → IsTaking o
        → 0 < length o
        → length (owed fs content m) ≤ length os
        → Answers fs content (with_outcomes o m) out
        → IsDelivered m (write_events os out)
    round-IsDelivered o os m out keep t pos le (complete closed sent) =
        rw (write_events-closed os out closed)
          (record { closed = closed; all_sent = kept_owed o m sent })
    round-IsDelivered o os m out keep t pos le (waiting b same less shrinks) =
        let d =
          keep out b (omega (arith, shrinks t pos, ap length (owed_outcomes m.client.state o m))) in
        record { closed = d.closed; all_sent = kept_owed o m (d.all_sent ∙ same) }
    round-IsDelivered o os m out keep t pos le (failing left closed sent dead) = absurd (dead t)

    -- A connection that is answering, on a socket that at each event has room for a write and takes a byte
    -- at least with each: after more events than there are bytes owed, all of them are sent, in
    -- order and nothing else, and the connection is closed.
    pub write_events-IsDelivered :
        (os : List (List Send)) (m : Machine Disk)
        → IsAnswering fs content m
        → IsSteady os
        → length (owed fs content m) < length os
        → IsDelivered m (write_events os m)
    write_events-IsDelivered [] m a s lt = absurd (omega arith)
    write_events-IsDelivered (o ∷ os) m a s lt =
        subst (IsDelivered m) (sym (write_events-live o os m a.live)) (
          round-IsDelivered o os m _ (λ m' b le. write_events-IsDelivered os m' b s.2 le) s.0 s.1
            (omega arith) (event-Answers o m a))
