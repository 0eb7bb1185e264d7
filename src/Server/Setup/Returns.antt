-- ===== src/Server/Setup/Returns.antt =====
-- What `main` of server.c leaves when it returns.
use file_system_server.Base.{
  ℕ, ◌≡◌, Bool, true, false, List, [], ◌∷◌, ◌++◌, Option, none, some, if◌then◌else◌,
}
use file_system_server.Format.{print_temp_directory}
use file_system_server.Collections.Dictionary.{dictionary_get}
use file_system_server.Os.{Socket, FileSystem}
use file_system_server.Os.Kernel.{Kernel, IsKernel, Same}
use file_system_server.Server.State.{Client}
use file_system_server.Server.Loop.{Server, Outside, Wait, server_start}
use file_system_server.Server.Loop.Safety.{IsServer}
use file_system_server.Server.Loop.Runs.{Polls}
use file_system_server.Server.Loop.Signals.{running_loop, waits_until}
use file_system_server.Server.Setup.{SetUp, stopped, serving}
use file_system_server.Server.Setup.Run.{Ended}

abbrev is_some : Option Client → Bool
is_some none = false
is_some (some c) = true

-- Whether a connection is in the table under the descriptor.
abbrev pub connected : {Disk : Type 0} → Server Disk → ℕ → Bool
connected s j = is_some (dictionary_get s.fd_to_client j)

module _ (k : Kernel) (h : IsKernel k) where
  open k use {World, close, mkdtemp}
  open h use {is_open, close_closes}

  -- The descriptors when the loop has ended: those that were open when it began, and one for each
  -- connection in the table, which is none of them.
  abbrev pub Connections : {Disk : Type 0} → World → World → Server Disk → Type 0
  Connections w at_end s =
      (j : ℕ)
      → (is_open at_end j ≡ (if connected s j then true else is_open w j))
        × (connected s j ≡ true → is_open w j ≡ false)

  -- `main` has failed, with the descriptors from before; or the loop has ended, the name of the
  -- temporary directory is all that was written, and the descriptors are those from before with those of
  -- the connections that are still in the table.
  pub data Returned {Disk : Type 0} (w : World) (out : Ended World Disk) : Type 0 where
    failed : out.status ≡ 1 → Same is_open w out.world → out.server ≡ none → Returned w out
    served :
        (s : Server Disk) (dir : List ℕ)
        → out.status ≡ 0
        → out.server ≡ some s
        → IsServer s
        → (mkdtemp w).0 ≡ some dir
        → out.output ≡ print_temp_directory dir
        → out.errors ≡ []
        → ((j : ℕ) → is_open out.world j ≡ (if connected s j then true else is_open w j))
        → Returned w out

  module _ (sigint : ℕ) (fs : FileSystem) (turns later : List (List ℕ × Outside fs.Disk × Wait))
      (before after : List ℕ) (world : Outside fs.Disk) (wait : Wait) (sockets : ℕ → Socket)
      (disk : fs.Disk) (at_end : World) where
    open fs use {Disk}

    -- The turns up to the one in which SIGINT comes, and all of them.
    abbrev stopping : List (List ℕ × Outside Disk × Wait)
    stopping = turns ++ ((before ++ sigint ∷ after, world, wait) ∷ [])

    abbrev pub all_turns : List (List ℕ × Outside Disk × Wait)
    all_turns = turns ++ ((before ++ sigint ∷ after, world, wait) ∷ later)

    -- What the kernel does while the server that was set up runs: `event_loop_wait` reports what it may,
    -- and the descriptors are those of the connections when the loop ends.
    abbrev pub Runs : SetUp World → Type 0
    Runs (stopped status w) = Unit
    Runs (serving listen_fd loop_fd dir w) =
        Polls fs (waits_until sigint fs true stopping) (server_start dir listen_fd sockets disk)
        × ((s : Server Disk)
            → running_loop sigint fs true all_turns (server_start dir listen_fd sockets disk)
              ≡ some s
            → Connections w at_end s)

    abbrev Left : World → ℕ × World × Option (Server Disk) → Type 0
    Left w (status, v, none) = (status ≡ 1) × Same is_open w v
    Left w (status, v, some s) =
        (status ≡ 0)
        × IsServer s
        × ((j : ℕ) → is_open v j ≡ (if connected s j then true else is_open w j))
