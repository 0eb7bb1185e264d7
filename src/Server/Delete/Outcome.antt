-- ===== src/Server/Delete/Outcome.antt =====
-- What a deletion comes to: the file, the list of names and the response.
use file_system_server.Base.{
  ℕ, ◌≤◌, ◌≡◌, refl, ap, ◌∙◌, true, List, ◌∷◌, ◌++◌, none, some, arith, length,
}
use file_system_server.Common.{delete}
use file_system_server.Format.{err_no_such_file}
use file_system_server.Os.{Send, accepts, FileSystem}
use file_system_server.Server.State.{Machine, filepath, close_if_open, close_and_cleanup}
use file_system_server.Server.Names.{index_of, remove_file_from_list}
use file_system_server.Server.Names.Laws.{
  Stores, position, removed, index_of-position, remove_file_from_list-Stores,
}
use file_system_server.Server.Response.{
  ok, error, status_text, finish, ok_sent, response_sent, start_send_list,
  prepare_and_send_response,
}
use file_system_server.Server.Response.Delivery.{
  responded, prepare_and_send_response_whole, error_response_whole,
}
use file_system_server.Server.Delete.{delete_request}

module _ (fs : FileSystem) where
  open fs use {Disk, unlink}

  -- The connection behind a removal that succeeds.
  abbrev removal : Machine Disk → Machine Disk
  removal m = record m {
    disk = (unlink (filepath m) m.disk).1;
    server_files = remove_file_from_list m.server_files m.client.filename;
  }

  removal-responded :
      (m : Machine Disk) (k : ℕ) (outs : List Send)
      → m.client.request_verb ≡ delete
      → m.socket.outcomes ≡ accepts k ∷ outs
      → 3 ≤ k
      → prepare_and_send_response fs ok (removal m) ≡ finish fs (responded fs ok outs (removal m))
  unfolding response_sent ok_sent
  removal-responded m k outs v o le =
      prepare_and_send_response_whole fs ok (removal m) k outs (omega arith) o (omega arith)
      ∙ ap (λ w. ok_sent fs (start_send_list fs) w (responded fs ok outs (removal m))) v

  -- For a name that is in the list, which has each name once: if `unlink` succeeds and the socket takes the
  -- response at once, the file is removed, the name leaves the list, the client gets OK, and the
  -- connection is closed.
  pub delete_request_stored :
      (m : Machine Disk) (xs : List (List ℕ)) (i k : ℕ) (outs : List Send)
      → Stores m.server_files xs
      → position m.client.filename xs ≡ some i
      → m.client.request_verb ≡ delete
      → m.client.file_fd ≡ none
      → (unlink (filepath m) m.disk).0 ≡ true
      → m.socket.outcomes ≡ accepts k ∷ outs
      → 3 ≤ k
      → let m' = delete_request fs m in
        (m'.freed ≡ true)
        × (m'.socket.sent ≡ m.socket.sent ++ status_text ok)
        × (m'.disk ≡ (unlink (filepath m) m.disk).1)
        × Stores m'.server_files (removed m.client.filename xs)
  unfolding delete_request finish close_and_cleanup
  delete_request_stored m xs i k outs s p v none_open u o le =
      let found : index_of m.server_files m.client.filename ≡ some i =
        index_of-position m.server_files m.client.filename xs s.holds ∙ p in
      let out : delete_request fs m ≡ finish fs (responded fs ok outs (removal m)) =
        (rw (found, u, delete_request) refl) ∙ removal-responded m k outs v o le in
      rw out (
        refl,
        refl,
        rw (v, none_open) refl,
        (remove_file_from_list-Stores m.server_files m.client.filename s).0,
      )

  -- For a name that is not in the list: if the socket takes the response at once, the client gets the
  -- error that there is no such file, the connection is closed, and the disk but for an open file,
  -- and the list, are unchanged.
  pub delete_request_missing :
      (m : Machine Disk) (xs : List (List ℕ)) (k : ℕ) (outs : List Send)
      → Stores m.server_files xs
      → position m.client.filename xs ≡ none
      → m.socket.outcomes ≡ accepts k ∷ outs
      → length (status_text (error err_no_such_file)) ≤ k
      → let m' = delete_request fs m in
        (m'.freed ≡ true)
        × (m'.socket.sent ≡ m.socket.sent ++ status_text (error err_no_such_file))
        × (m'.disk ≡ close_if_open fs m.client.file_fd m.disk)
        × (m'.server_files ≡ m.server_files)
  unfolding delete_request
  delete_request_missing m xs k outs s p o le =
      let missing : index_of m.server_files m.client.filename ≡ none =
        index_of-position m.server_files m.client.filename xs s.holds ∙ p in
      rw (missing, delete_request)
        (error_response_whole fs err_no_such_file m k outs (omega arith) o le)
