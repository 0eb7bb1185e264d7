-- ===== src/Tests/Loop.antt =====
-- A server from its start on, with one client.
use file_system_server.Base.{ℕ, ◌≡◌, refl, true, List, [], ◌∷◌, Option, some, arith}
use file_system_server.EventLoop.{event_read, event_write, has}
use file_system_server.Os.{Socket, bytes}
use file_system_server.Collections.Vector.{vector_create}
use file_system_server.Collections.Vector.Laws.{vector_create-Holds}
use file_system_server.Server.{Machine, recv_header}
use file_system_server.Server.Events.{dispatch_event}
use file_system_server.Server.Invariant.{IsSound, listed}
use file_system_server.Server.Invariant.Events.{Reported, dispatch_event-IsSound}
use file_system_server.Server.Loop.{
  Wait, Outside, ready, interrupted_wait, failed_wait, main_loop, Server, Accept, server_start,
  serve_event, serve_events, accept_connections, accept_loop, accept_one,
}
use file_system_server.Server.Loop.Safety.{IsServer, server_start-IsServer, serve_event-IsServer}
use file_system_server.Server.Loop.Batches.{Polled}
use file_system_server.Server.Loop.Signals.{deliver, running_loop, running_loop-Reach}
use file_system_server.Server.Loop.Runs.{Reach, started, outside, batch, main_loop-Reach}
use file_system_server.Tests.{one_file, connection}

abbrev silent : ℕ → Socket
silent fd = record { incoming = []; outcomes = []; sent = [] }

-- `GET a` and its newline on every connection.
abbrev asking : ℕ → Socket
asking fd = record {
  incoming = bytes 71 (69 ∷ 84 ∷ 32 ∷ 97 ∷ 10 ∷ []) ∷ [];
  outcomes = [];
  sent = [];
}

abbrev first : Server (List ℕ)
first = server_start (116 ∷ []) 3 silent []

-- A connection is waiting.
abbrev called : Server (List ℕ)
called = record first {
  sockets = asking;
  backlog = Accept.connection 7 ∷ Accept.no_connection ∷ [];
  disk = [];
}

abbrev accepted : Server (List ℕ)
accepted = accept_connections called

read_Reported : (i : Option ℕ) → i ≡ some event_read → Reported event_read i
read_Reported i e = (λ h. e, λ h. absurd (never h))
  where
    never : has event_read event_write ≡ true → ⊥
    never h = ground arith

called-Reach : Reach one_file first called
called-Reach = outside asking (Accept.connection 7 ∷ Accept.no_connection ∷ []) [] started

called-IsServer : IsServer called
called-IsServer =
    let h = server_start-IsServer (116 ∷ []) 3 silent [] in
    record { table = h.table; room = h.room; names = h.names; clients = h.clients }

listening-watched : first.interests 3 ≡ some event_read
unfolding server_start
listening-watched = refl

called-Polled : Polled called ((3, event_read) ∷ [])
called-Polled = (read_Reported (called.interests 3) listening-watched, tt, tt)

serve_event-IsServer_test :
    (s' : Server (List ℕ)) × (serve_event one_file 3 event_read called ≡ some s') × IsServer s'
serve_event-IsServer_test =
    serve_event-IsServer one_file 3 event_read called called-IsServer called-Polled.0

accepting : serve_events one_file ((3, event_read) ∷ []) called ≡ some accepted
unfolding serve_events serve_event server_start
accepting = refl

accepted-watched : accepted.interests 7 ≡ some event_read
unfolding server_start accept_connections accept_loop accept_one
accepted-watched = refl

accepted-Polled : Polled accepted ((7, event_read) ∷ [])
accepted-Polled = (read_Reported (accepted.interests 7) accepted-watched, tt, tt)

accepted-Reach : Reach one_file first accepted
accepted-Reach = batch ((3, event_read) ∷ []) called-Polled accepting called-Reach

-- The client has sent the first byte of its request.
abbrev begun : ℕ → Socket
begun fd = record { incoming = bytes 71 [] ∷ []; outcomes = []; sent = [] }

-- Nothing new; and then the client has sent all, and another one calls.
abbrev now : Outside (List ℕ)
now = record { arrivals = begun; callers = []; files = [] }

abbrev later : Outside (List ℕ)
later = record { arrivals = asking; callers = Accept.connection 8 ∷ []; files = 5 ∷ [] }

-- A signal, one event of the client, and a failure.
abbrev three_waits : List (Outside (List ℕ) × Wait)
three_waits =
    (now, interrupted_wait) ∷ (later, ready ((7, event_read) ∷ [])) ∷ (now, failed_wait) ∷ []

main_loop-Reach_test :
    (s' : Server (List ℕ)) × (main_loop one_file three_waits accepted ≡ some s')
    × Reach one_file first s'
    × IsServer s'
main_loop-Reach_test =
    main_loop-Reach one_file (116 ∷ []) 3 silent [] three_waits accepted accepted-Reach
      (accepted-Polled, λ s' served. tt)

abbrev asking_client : Machine (List ℕ)
asking_client = record (connection recv_header event_read (asking 7).incoming [] []) {
  server_files = vector_create;
}

asking_client-IsSound : IsSound asking_client
asking_client-IsSound = (
  refl,
  listed [] (record { holds = vector_create-Holds; once = tt }),
  (omega arith, omega arith, omega arith),
)

dispatch_event-IsSound_example :
    (m' : Machine (List ℕ)) × (dispatch_event one_file event_read asking_client ≡ some m')
    × IsSound m'
dispatch_event-IsSound_example =
    dispatch_event-IsSound one_file event_read asking_client refl refl
      (read_Reported (some event_read) refl) asking_client-IsSound

-- SIGINT, whose number is 2, comes with the second wait; the third is not served.
running_loop-Reach_example :
    (s' : Server (List ℕ)) × (running_loop 2 one_file true
        (([], now, interrupted_wait)
          ∷ (1 ∷ 2 ∷ [], later, ready ((7, event_read) ∷ []))
          ∷ ([], now, failed_wait)
          ∷ [])
        accepted
      ≡ some s')
    × (main_loop one_file
          ((now, interrupted_wait) ∷ (later, ready ((7, event_read) ∷ [])) ∷ [])
          accepted
        ≡ some s')
    × Reach one_file first s'
    × IsServer s'
unfolding deliver
running_loop-Reach_example =
    running_loop-Reach 2 one_file (116 ∷ []) 3 silent [] (([], now, interrupted_wait) ∷ [])
      (([], now, failed_wait) ∷ []) (1 ∷ []) [] later (ready ((7, event_read) ∷ [])) accepted
      accepted-Reach (accepted-Polled, λ s' served. tt)
