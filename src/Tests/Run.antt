-- ===== src/Tests/Run.antt =====
-- `main` of the server on a kernel with few descriptors, with one connection.
use file_system_server.Base.{ℕ, true, List, [], ◌∷◌}
use file_system_server.Server.Setup.{SetUp, stopped, serving, set_up}
use file_system_server.Tests.Kernels.{World, small, booted, dir, with_fd}
use file_system_server.EventLoop.{event_read}
use file_system_server.Server.Loop.{
  Outside, meanwhile, Accept, Wait, ready, Server, server_start, accept_connections,
}

abbrev arguments : List (List ℕ)
arguments = [] ∷ (b'1' ∷ []) ∷ []

-- A connection comes on descriptor 5, and then SIGINT.
abbrev one_caller : Outside (List ℕ)
one_caller = record {
  arrivals = λ fd. record { incoming = []; outcomes = []; sent = [] };
  callers = Accept.connection 5 ∷ [];
  files = [];
}

abbrev first_turn : List ℕ × Outside (List ℕ) × Wait
first_turn = ([], one_caller, ready ((3, event_read) ∷ []))

abbrev caught_up : Outside (List ℕ)
caught_up = record one_caller { callers = [] }

abbrev kernel_of : SetUp World → World
kernel_of (stopped status w) = w
kernel_of (serving listen_fd loop_fd _ w) = w

-- The kernel behind the set-up, and when the loop has ended.
abbrev prepared : World
prepared = kernel_of (set_up small true true arguments booted)

abbrev ending_with : World
ending_with = with_fd true 5 prepared

abbrev at_start : Server (List ℕ)
at_start = server_start dir 3 one_caller.arrivals []

abbrev with_caller : Server (List ℕ)
with_caller = meanwhile caught_up (accept_connections (meanwhile one_caller at_start))
