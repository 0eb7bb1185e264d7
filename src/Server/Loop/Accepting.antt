-- ===== src/Server/Loop/Accepting.antt =====
-- The connections that `accept_connections` takes, in the table and in the event loop.
use file_system_server.Base.{
  ℕ, ◌≡◌, refl, ◌⊎◌, inl, inr, true, List, [], ◌∷◌, Option, some, ◌==◌, ==_refl, ==_iff, Bool-cases,
}
use file_system_server.EventLoop.{event_read}
use file_system_server.Collections.Dictionary.{dictionary_get}
use file_system_server.Collections.Dictionary.Laws.{dictionary_get-set}
use file_system_server.Server.State.{client_create}
use file_system_server.Server.Loop.{
  Server, update, Accept, connection, interrupted_accept, no_connection, accept_one, accept_loop,
  accept_connections,
}

-- A descriptor is among those that one run of the loop takes.
abbrev pub Accepted : ℕ → List Accept → Type 0
Accepted fd [] = ⊥
Accepted fd (connection k ∷ rest) = (k ≡ fd) ⊎ Accepted fd rest
Accepted fd (interrupted_accept ∷ rest) = Accepted fd rest
Accepted fd (no_connection ∷ rest) = ⊥

update_self : (f : ℕ → Option ℕ) (k : ℕ) (a : Option ℕ) → update f k a k ≡ a
update_self f k a = rw (==_refl k) refl

module _ {Disk : Type 0} where
  -- A new client is in the table under its descriptor, is watched for reading, and is non-blocking where
  -- `fcntl` succeeds.
  pub record IsFresh (fd : ℕ) (s : Server Disk) : Type 0 where
    pub room : s.memory ≡ true
    pub listed : dictionary_get s.fd_to_client fd ≡ some (client_create fd)
    pub watched : s.interests fd ≡ some event_read
    pub unblocked : s.flags_set ≡ true → s.nonblocking fd ≡ true

  accept_one-IsFresh : (fd : ℕ) (s : Server Disk) → s.memory ≡ true → IsFresh fd (accept_one fd s)
  unfolding accept_one
  accept_one-IsFresh fd s r = record {
    room = r;
    listed = rw (r, dictionary_get-set s.fd_to_client fd fd (client_create fd), ==_refl fd) refl;
    watched = update_self s.interests fd (some event_read);
    unblocked = λ f. rw (f, ==_refl fd) refl;
  }

  other-IsFresh : (k fd : ℕ) (s : Server Disk) → IsFresh fd s → IsFresh fd (accept_one k s)
  unfolding accept_one
  other-IsFresh k fd s h = elim (Bool-cases (k == fd)) [
    | inl same ↦ let e : k ≡ fd = (==_iff k fd).0 same in rw e (accept_one-IsFresh fd s h.room)
    | inr other ↦ record {
      room = h.room;
      listed =
          rw (h.room, dictionary_get-set s.fd_to_client k fd (client_create k), other) h.listed;
      watched = rw other h.watched;
      unblocked = λ f. rw (f, other) (h.unblocked f);
    }
  ]

  kept-IsFresh :
      (accepts : List Accept) (fd : ℕ) (s : Server Disk)
      → IsFresh fd s
      → IsFresh fd (accept_loop accepts s)
  unfolding accept_loop
  kept-IsFresh [] fd s h = record {
    room = h.room;
    listed = h.listed;
    watched = h.watched;
    unblocked = h.unblocked;
  }
  kept-IsFresh (connection k ∷ rest) fd s h =
      kept-IsFresh rest fd (accept_one k s) (other-IsFresh k fd s h)
  kept-IsFresh (interrupted_accept ∷ rest) fd s h = kept-IsFresh rest fd s h
  kept-IsFresh (no_connection ∷ rest) fd s h = record {
    room = h.room;
    listed = h.listed;
    watched = h.watched;
    unblocked = h.unblocked;
  }

  accept_loop-IsFresh :
      (accepts : List Accept) (fd : ℕ) (s : Server Disk)
      → s.memory ≡ true
      → Accepted fd accepts
      → IsFresh fd (accept_loop accepts s)
  unfolding accept_loop accept_one
  accept_loop-IsFresh [] fd s r a = absurd a
  accept_loop-IsFresh (connection k ∷ rest) fd s r (inl e) =
      rw e (kept-IsFresh rest fd (accept_one fd s) (accept_one-IsFresh fd s r))
  accept_loop-IsFresh (connection k ∷ rest) fd s r (inr a) =
      accept_loop-IsFresh rest fd (accept_one k s) r a
  accept_loop-IsFresh (interrupted_accept ∷ rest) fd s r a = accept_loop-IsFresh rest fd s r a
  accept_loop-IsFresh (no_connection ∷ rest) fd s r a = absurd a

  -- With memory, every connection that `accept` returns before it would block has a new client in the
  -- table under its descriptor, is watched for reading, and is non-blocking where `fcntl` succeeds, also where the descriptor was in the
  -- table before and where calls are interrupted.
  pub accept_connections-IsFresh :
      (fd : ℕ) (s : Server Disk)
      → s.memory ≡ true
      → Accepted fd s.backlog
      → IsFresh fd (accept_connections s)
  unfolding accept_connections
  accept_connections-IsFresh fd s r a = accept_loop-IsFresh s.backlog fd s r a
