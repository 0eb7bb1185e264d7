-- ===== src/Server/Put/Stored.antt =====
-- The end of an upload that is complete.
use file_system_server.Base.{
  ℕ, ◌≤◌, ◌≡◌, refl, subst, sym, ap, ◌∙◌, true, List, ◌∷◌, ◌++◌, none, arith, codes,
}
use file_system_server.Common.{put}
use file_system_server.Os.{Send, accepts, FileSystem}
use file_system_server.Server.State.{Machine, close_and_cleanup}
use file_system_server.Server.Names.{add_file_to_list}
use file_system_server.Server.Names.Laws.{Stores, IsIn, inserted, add_file_to_list-Stores}
use file_system_server.Server.Response.{ok, finish, ok_sent, response_sent}
use file_system_server.Server.Response.Delivery.{prepare_and_send_response_whole}
use file_system_server.Server.Put.{stored_ok}

module _ (fs : FileSystem) where
  open fs use {Disk}

  -- The end of an upload: the name goes into the list, `OK` is sent, and the connection is closed.
  pub record IsStored (name : List ℕ) (m : Machine Disk) (d : Disk) (m' : Machine Disk)
      : Type 0 where
    pub closed : m'.freed ≡ true
    pub disk : m'.disk ≡ d
    pub answered : m'.socket.sent ≡ m.socket.sent ++ codes "OK\n"
    pub names : m'.server_files ≡ add_file_to_list m.memory m.server_files name

  pub stored_ok-IsStored :
      (m : Machine Disk) (k : ℕ) (outs : List Send)
      → m.client.request_verb ≡ put
      → m.client.file_fd ≡ none
      → m.socket.outcomes ≡ accepts k ∷ outs
      → 3 ≤ k
      → IsStored m.client.filename m m.disk (stored_ok fs m)
  unfolding response_sent ok_sent finish close_and_cleanup
  stored_ok-IsStored m k outs v h o le =
      let m1 = record m {
        server_files = add_file_to_list m.memory m.server_files m.client.filename;
      } in
      rw (prepare_and_send_response_whole fs ok m1 k outs (omega arith) o le, v, h)
        (record { closed = refl; disk = refl; answered = refl; names = refl })

  pub stored_ok-unread :
      (m : Machine Disk) (k : ℕ) (outs : List Send)
      → m.client.request_verb ≡ put
      → m.socket.outcomes ≡ accepts k ∷ outs
      → 3 ≤ k
      → (stored_ok fs m).socket.incoming ≡ m.socket.incoming
  unfolding response_sent ok_sent finish close_and_cleanup
  stored_ok-unread m k outs v o le =
      let m1 = record m {
        server_files = add_file_to_list m.memory m.server_files m.client.filename;
      } in
      rw (prepare_and_send_response_whole fs ok m1 k outs (omega arith) o le, v) refl

  -- An upload that is accepted, from a list of the names `xs`: the connection is closed behind `OK`, the
  -- disk is `d`, and the list has the old names in their order, the new one behind them if it is new.
  pub record IsAccepted (name : List ℕ) (xs : List (List ℕ)) (m : Machine Disk) (d : Disk)
      (m' : Machine Disk) : Type 0 where
    pub closed : m'.freed ≡ true
    pub disk : m'.disk ≡ d
    pub answered : m'.socket.sent ≡ m.socket.sent ++ codes "OK\n"
    pub names : Stores m'.server_files (inserted name xs)
    pub listed : IsIn name (inserted name xs)

  pub IsStored-IsAccepted :
      (name : List ℕ) (xs : List (List ℕ)) (m : Machine Disk) (d : Disk) (m' : Machine Disk)
      → m.memory ≡ true
      → Stores m.server_files xs
      → IsStored name m d m'
      → IsAccepted name xs m d m'
  IsStored-IsAccepted name xs m d m' room h s =
      let (now, is) = add_file_to_list-Stores m.server_files name h in
      record {
        closed = s.closed;
        disk = s.disk;
        answered = s.answered;
        names =
            subst (λ v. Stores v (inserted name xs))
              (sym (s.names ∙ ap (λ b. add_file_to_list b m.server_files name) room)) now;
        listed = is;
      }
