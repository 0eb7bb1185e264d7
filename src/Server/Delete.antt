-- ===== src/Server/Delete.antt =====
-- server.c, the removal of a file.
pub mod Outcome
use file_system_server.Base.{Bool, true, false, none, some}
use file_system_server.Format.{err_no_such_file}
use file_system_server.Os.{FileSystem}
use file_system_server.Server.State.{Machine, filepath}
use file_system_server.Server.Names.{index_of, remove_file_from_list}
use file_system_server.Server.Response.{ok, error, prepare_and_send_response}

module _ (fs : FileSystem) where
  open fs use {Disk, unlink}

  -- Behind `unlink`, which may have failed.
  abbrev pub unlinked : Bool × Disk → Machine Disk → Machine Disk
  unlinked (false, d) m =
      prepare_and_send_response fs (error err_no_such_file) (record m { disk = d })
  unlinked (true, d) m =
      prepare_and_send_response fs ok (record m {
        disk = d;
        server_files = remove_file_from_list m.server_files m.client.filename;
      })

  unfoldable pub delete_request : Machine Disk → Machine Disk
  delete_request m = elim (index_of m.server_files m.client.filename) [
    | none ↦ prepare_and_send_response fs (error err_no_such_file) m
    | some i ↦ unlinked (unlink (filepath m) m.disk) m
  ]
