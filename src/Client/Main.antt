-- ===== src/Client/Main.antt =====
-- client.c, `main`: the connection and the switch on the verb. `connect_to_server` is a parameter.
use file_system_server.Base.{ℕ, true, List, [], ◌∷◌, Option, none, some}
use file_system_server.Common.{Verb, get, put, delete, list, v_unknown}
use file_system_server.Os.{Socket}
use file_system_server.Client.State.{
  LocalFiles, Session, Output, client_usage, client_help, local_error,
}
use file_system_server.Client.Args.{Args, parse_args, check_args}
use file_system_server.Client.Handlers.{handle_get, handle_put, handle_delete, handle_list}

-- The status with what is printed, or the session where there was one; `undefined` where a handler is given the null
-- pointer or reads past its buffer.
pub data Exit (Disk : Type 0) : Type 0 where
  exited : ℕ → List Output → Disk → Exit Disk
  finished : Session Disk → Exit Disk
  undefined : Exit Disk

module _ (files : LocalFiles) (connect : List ℕ → List ℕ → Option Socket) where
  open files use {Disk}

  abbrev pub handled : Option (Session Disk) → Exit Disk
  handled none = undefined
  handled (some s) = finished s

  abbrev pub with_name : Option (List ℕ) → (List ℕ → Option (Session Disk)) → Option (Session Disk)
  with_name none k = none
  with_name (some name) k = k name

  -- The `switch`.
  unfoldable pub run_command : Verb → Args → Session Disk → Option (Session Disk)
  unfolding handle_get handle_put handle_delete handle_list
  run_command get args s =
      with_name args.remote
        (λ remote. with_name args.local (λ local. handle_get files remote local s))
  run_command put args s =
      with_name args.remote
        (λ remote. with_name args.local (λ local. handle_put files remote local s))
  run_command delete args s = with_name args.remote (λ remote. handle_delete files remote s)
  run_command list args s = some (handle_list files s)
  run_command v_unknown args s = some s

  abbrev pub connected : Verb → Args → Option Socket → Disk → Exit Disk
  unfolding run_command
  connected command args none d = exited 1 (local_error ∷ []) d
  connected command args (some socket) d = handled (
      run_command command args
        (record { socket = socket; write_side_open = true; disk = d; output = []; memory = true }))

  abbrev pub with_args : Option Args → Option Verb → Disk → Exit Disk
  with_args none command d = exited 1 (client_usage ∷ []) d
  with_args (some args) none d = exited 1 (client_help ∷ []) d
  with_args (some args) (some command) d = connected command args (connect args.host args.port) d

  unfoldable pub client_main : List (List ℕ) → Disk → Exit Disk
  unfolding parse_args check_args
  client_main argv d = let args = parse_args argv in with_args args (check_args args) d
