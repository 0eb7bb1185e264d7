-- ===== src/Server/Setup/Run.antt =====
-- `main` of server.c from its first line to its last.
use file_system_server.Base.{ℕ, Bool, true, List, [], ◌∷◌, Option, none, some}
use file_system_server.Format.{print_temp_directory, print_server_usage}
use file_system_server.Os.{Socket, FileSystem}
use file_system_server.Os.Kernel.{Kernel}
use file_system_server.Server.Loop.{Server, Outside, Wait, server_start}
use file_system_server.Server.Loop.Signals.{running_loop}
use file_system_server.Server.Setup.{SetUp, stopped, serving, cleanup, set_up}

-- What the process leaves: its status, what it wrote to the standard output and, but for `perror`, to
-- the standard error, the kernel, and the server as its loop left it (`none` where it came to none).
pub record Ended (World Disk : Type 0) : Type 0 where
  pub status : ℕ
  pub output : List ℕ
  pub errors : List ℕ
  pub world : World
  pub server : Option (Server Disk)

module _ (k : Kernel) where
  open k use {World, mkdtemp}

  -- `build_temp_directory` prints the name that it gets.
  abbrev pub directory_output : Option (List ℕ) → List ℕ
  directory_output none = []
  directory_output (some dir) = print_temp_directory dir

  unfoldable pub server_output :
      (vector_made dictionary_made : Bool) → List (List ℕ) → World → List ℕ
  server_output true true (program ∷ port ∷ []) w = directory_output (mkdtemp w).0
  server_output vector_made dictionary_made argv w = []

  unfoldable pub server_errors : List (List ℕ) → List ℕ
  server_errors (program ∷ port ∷ []) = []
  server_errors argv = print_server_usage

  module _ (sigint : ℕ) (fs : FileSystem) where
    open fs use {Disk}

    -- The loop on a server that has been set up, and the clean-up. `at_end` is the kernel when the loop
    -- has ended.
    unfoldable pub serve_and_clean_up :
        List (List ℕ × Outside Disk × Wait)
        → (ℕ → Socket)
        → Disk
        → (at_end : World) → SetUp World
        → Option (ℕ × World × Option (Server Disk))
    unfolding running_loop
    serve_and_clean_up turns sockets disk at_end (stopped status w) = some (status, w, none)
    serve_and_clean_up turns sockets disk at_end (serving listen_fd event_loop_fd dir w) =
        elim (running_loop sigint fs true turns (server_start dir listen_fd sockets disk)) [
          | none ↦ none
          | some s ↦
              some (0, cleanup k (some dir) (some listen_fd) (some event_loop_fd) at_end, some s)
        ]

    abbrev pub ended :
        (output errors : List ℕ)
        → Option (ℕ × World × Option (Server Disk))
        → Option (Ended World Disk)
    ended output errors none = none
    ended output errors (some (status, world, server)) = some (record {
      status = status;
      output = output;
      errors = errors;
      world = world;
      server = server;
    })

    -- `none` is a use of freed memory.
    unfoldable pub server_main :
        List (List ℕ × Outside Disk × Wait)
        → (ℕ → Socket)
        → Disk
        → (at_end : World) → (vector_made dictionary_made : Bool) → List (List ℕ)
        → World
        → Option (Ended World Disk)
    unfolding serve_and_clean_up
    server_main turns sockets disk at_end vector_made dictionary_made argv w =
        ended (server_output vector_made dictionary_made argv w) (server_errors argv) (
          serve_and_clean_up turns sockets disk at_end
            (set_up k vector_made dictionary_made argv w))
