-- ===== src/Tests/Remove.antt =====
-- Runs of a deletion.
use file_system_server.Base.{
  ℕ, ◌≡◌, refl, true, List, [], ◌∷◌, ◌++◌, none, some, arith, replicate, str_eq,
}
use file_system_server.Common.{delete}
use file_system_server.EventLoop.{event_read}
use file_system_server.Os.{accepts}
use file_system_server.Server.{Machine, recv_header}
use file_system_server.Server.Names.Laws.{Stores, removed}
use file_system_server.Server.Response.{ok, status_text}
use file_system_server.Server.Delete.{delete_request}
use file_system_server.Server.Delete.Outcome.{delete_request_stored}
use file_system_server.Tests.{one_file, connection}

-- A request to delete the file of a name, on a server that has `a`.
abbrev deletion : List ℕ → Machine (List ℕ)
deletion name =
    let m = connection recv_header event_read [] (accepts 100 ∷ []) (1 ∷ []) in
    record m {
      client = record m.client { request_verb = delete; filename = name; file_fd = none };
      server_files = record { cells = some (97 ∷ []) ∷ replicate 7 none; size = 1; capacity = 8 };
    }

deletion-Stores : (name : List ℕ) → Stores (deletion name).server_files ((97 ∷ []) ∷ [])
deletion-Stores name = record {
  holds = record { live = refl; space = refl; fits = omega arith; positive = omega arith };
  once = (tt, tt);
}

delete_request_stored_example :
    let m' = delete_request one_file (deletion (97 ∷ [])) in
    (m'.freed ≡ true)
    × (m'.socket.sent ≡ [] ++ status_text ok)
    × (m'.disk ≡ [])
    × Stores m'.server_files (removed (97 ∷ []) ((97 ∷ []) ∷ []))
unfolding str_eq
delete_request_stored_example =
    delete_request_stored one_file (deletion (97 ∷ [])) ((97 ∷ []) ∷ []) 0 100 []
      (deletion-Stores (97 ∷ [])) refl refl refl refl refl (omega arith)
