-- ===== src/Server/Loop/Safety.antt =====
-- The table of connections: what holds of it between two events, for every connection in it.
use file_system_server.Base.{
  none-some, ℕ, ◌≡◌, refl, sym, subst, ap, ◌∙◌, inl, inr, Bool, true, false, List, [], ◌∷◌, some,
  arith, ◌==◌, Bool-cases, Option-cases, if◌then◌else◌,
}
use file_system_server.EventLoop.{event_read}
use file_system_server.Os.{Socket, FileSystem}
use file_system_server.Collections.Dictionary.{
  find_value, dictionary_get, dictionary_set, dictionary_remove, dictionary_create,
}
use file_system_server.Collections.Dictionary.Laws.{
  IsDictionary, dictionary_create-IsDictionary, dictionary_set-IsDictionary,
  dictionary_remove-IsDictionary,
}
use file_system_server.Collections.Vector.Laws.{vector_create-Holds}
use file_system_server.Server.State.{Client, Machine, client_create}
use file_system_server.Server.Invariant.{Watches, IsListed, listed, InBounds, Kept}
use file_system_server.Server.Invariant.Events.{Reported, dispatch_event-Served}
use file_system_server.Server.Loop.{
  Server, server_start, update, Accept, connection, interrupted_accept, no_connection, accept_one,
  accept_loop, accept_connections, focus, table_after, unfocus, serve_client, serve_event,
}
use file_system_server.Server.Loop.Clients.{Clients, set-Clients, remove-Clients}

pub record IsServer {Disk : Type 0} (s : Server Disk) : Type 0 where
  pub table : IsDictionary s.fd_to_client
  pub room : s.memory ≡ true
  pub names : IsListed s.server_files
  pub clients : Clients s.fd_to_client s.interests

client_create-InBounds : (fd : ℕ) → InBounds (client_create fd)
unfolding client_create
client_create-InBounds fd = (omega arith, omega arith, omega arith)

client_create-Watches : (fd : ℕ) → Watches false (client_create fd).state (some event_read)
unfolding client_create
client_create-Watches fd = refl

client_create-fd : (fd : ℕ) → (client_create fd).fd ≡ fd
unfolding client_create
client_create-fd fd = refl

module _ {Disk : Type 0} where
  -- A server before its first event.
  pub server_start-IsServer :
      (temp_dir : List ℕ) (listen_fd : ℕ) (sockets : ℕ → Socket) (d : Disk)
      → IsServer (server_start temp_dir listen_fd sockets d)
  unfolding server_start dictionary_get dictionary_create find_value
  server_start-IsServer temp_dir listen_fd sockets d = record {
    table = dictionary_create-IsDictionary;
    room = refl;
    names = listed [] (record { holds = vector_create-Holds; once = tt });
    clients = λ fd c h. absurd (none-some h);
  }

  accept_one-IsServer : (fd : ℕ) (s : Server Disk) → IsServer s → IsServer (accept_one fd s)
  unfolding accept_one
  accept_one-IsServer fd s h = record {
    table = dictionary_set-IsDictionary s.memory s.fd_to_client fd (client_create fd) h.table;
    room = h.room;
    names = h.names;
    clients =
        subst
          (λ b.
            Clients (dictionary_set b s.fd_to_client fd (client_create fd))
              (update s.interests fd (some event_read)))
          (sym h.room)
          (set-Clients s.fd_to_client s.interests fd (some event_read) (client_create fd) h.clients
            (client_create-fd fd) (client_create-Watches fd) (client_create-InBounds fd));
  }

  accept_loop-IsServer :
      (accepts : List Accept) (s : Server Disk) → IsServer s → IsServer (accept_loop accepts s)
  unfolding accept_loop
  accept_loop-IsServer [] s h = record {
    table = h.table;
    room = h.room;
    names = h.names;
    clients = h.clients;
  }
  accept_loop-IsServer (connection fd ∷ rest) s h =
      accept_loop-IsServer rest (accept_one fd s) (accept_one-IsServer fd s h)
  accept_loop-IsServer (interrupted_accept ∷ rest) s h = accept_loop-IsServer rest s h
  accept_loop-IsServer (no_connection ∷ rest) s h = record {
    table = h.table;
    room = h.room;
    names = h.names;
    clients = h.clients;
  }

  -- What a handler leaves of a client goes back into the table.
  unfocus-IsServer :
      (b : Bool) (fd : ℕ) (c : Client) (s : Server Disk) (m : Machine Disk)
      → b ≡ m.freed
      → IsServer s
      → c.fd ≡ fd
      → Watches b m.client.state m.interest
      → Kept b (focus fd c s) m
      → InBounds c
      → IsServer (unfocus fd m s)
  unfocus-IsServer false fd c s m f h own w (table, same, dir, sound) bounds =
      let (memory, names, b) = sound (h.room, h.names, bounds) in
      let at : table_after fd m ≡ dictionary_set true s.fd_to_client fd m.client =
        ap (λ z. if z then m.fd_to_client else dictionary_set true m.fd_to_client fd m.client)
          (sym f)
        ∙ ap (λ t. dictionary_set true t fd m.client) table in
      record {
        table =
            subst IsDictionary (sym at)
              (dictionary_set-IsDictionary true s.fd_to_client fd m.client h.table);
        room = h.room;
        names = names;
        clients =
            subst (λ t. Clients t (update s.interests fd m.interest)) (sym at)
              (set-Clients s.fd_to_client s.interests fd m.interest m.client h.clients (same ∙ own)
                w b);
      }
  unfocus-IsServer true fd c s m f h own w (table, dir, sound) bounds =
      let (memory, names, b) = sound (h.room, h.names, bounds) in
      let at : table_after fd m ≡ dictionary_remove s.fd_to_client fd =
        ap (λ z. if z then m.fd_to_client else dictionary_set true m.fd_to_client fd m.client)
          (sym f)
        ∙ table
        ∙ ap (dictionary_remove s.fd_to_client) own in
      record {
        table =
            subst IsDictionary (sym at) (dictionary_remove-IsDictionary s.fd_to_client fd h.table);
        room = h.room;
        names = names;
        clients =
            subst (λ t. Clients t (update s.interests fd m.interest)) (sym at)
              (remove-Clients s.fd_to_client s.interests fd m.interest h.table h.clients);
      }

module _ (fs : FileSystem) where
  open fs use {Disk}

  serve_client-IsServer :
      (fd mask : ℕ) (s : Server Disk)
      → IsServer s
      → Reported mask (s.interests fd)
      → (s' : Server Disk) × (serve_client fs fd mask s ≡ some s') × IsServer s'
  unfolding serve_client
  serve_client-IsServer fd mask s h rep = elim (Option-cases (dictionary_get s.fd_to_client fd)) [
    | inl e ↦ (s, rw (serve_client, e) refl, h)
    | inr (c, e) ↦
        let is = h.clients fd c e in
        let (m, out, now) =
          dispatch_event-Served fs (focus fd c s) mask (focus fd c s) refl is.watched
            (refl, refl, refl, λ z. z) rep in
        (
          unfocus fd m s,
          rw (serve_client, e, out) refl,
          unfocus-IsServer m.freed fd c s m refl h is.own now.0 now.1 is.bounds,
        )
  ]

  -- On a server whose table, list and connections are as they should be, each event that the loop may
  -- report is served without a use of freed memory, and they are so again: every client in the table
  -- stands under its descriptor, is watched for what its state waits for, and is within its buffers.
  pub serve_event-IsServer :
      (fd mask : ℕ) (s : Server Disk)
      → IsServer s
      → Reported mask (s.interests fd)
      → (s' : Server Disk) × (serve_event fs fd mask s ≡ some s') × IsServer s'
  unfolding serve_event accept_connections
  serve_event-IsServer fd mask s h rep = elim (Bool-cases (fd == s.listen_fd)) [
    | inl l ↦ (accept_connections s, rw l refl, accept_loop-IsServer s.backlog s h)
    | inr l ↦ let (s', out, is) = serve_client-IsServer fd mask s h rep in (s', rw l out, is)
  ]
