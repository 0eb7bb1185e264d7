-- ===== src/Server/Loop/Batches.antt =====
-- A batch of events that `event_loop_wait` reports at once, and what serving one leaves for the rest.
use file_system_server.Base.{
  none-some, some_eq, true-false, ℕ, ◌≡◌, refl, sym, subst, ◌∙◌, inl, inr, true, false, List, [],
  ◌∷◌, Option, none, some, ◌==◌, ==_iff, Bool-cases, Option-cases,
}
use file_system_server.Os.{FileSystem}
use file_system_server.Collections.Dictionary.{dictionary_get}
use file_system_server.Server.State.{Machine}
use file_system_server.Server.Events.{dispatch_event}
use file_system_server.Server.Invariant.Events.{Reported}
use file_system_server.Server.Loop.{
  Server, Accept, connection, interrupted_accept, no_connection, accept_one, accept_loop,
  accept_connections, focus, unfocus, put_back_client, serve_client, serve_event,
}
use file_system_server.Server.Loop.Clients.{update_other}
use file_system_server.Server.Loop.Accepting.{Accepted}

different : (k j : ℕ) → (k ≡ j → ⊥) → (k == j) ≡ false
different k j apart = elim (Bool-cases (k == j)) [
  | inl same ↦ absurd (apart ((==_iff k j).0 same))
  | inr other ↦ other
]

module _ {Disk : Type 0} where
  -- The later entries of a batch are about other descriptors, and where this entry accepts connections
  -- none of them gets the descriptor of a later entry.
  abbrev pub Others : Server Disk → ℕ → List (ℕ × ℕ) → Type 0
  Others s fd [] = Unit
  Others s fd ((k, mask) ∷ events) =
      ((fd == k) ≡ false)
      × ((fd == s.listen_fd) ≡ true → Accepted k s.backlog → ⊥)
      × Others s fd events

  -- What `event_loop_wait` may report at once: each descriptor in one entry, for what is watched on it.
  abbrev pub Polled : Server Disk → List (ℕ × ℕ) → Type 0
  Polled s [] = Unit
  Polled s ((fd, mask) ∷ events) =
      Reported mask (s.interests fd) × Others s fd events × Polled s events

  -- What one event leaves as it was for the entries behind it.
  pub record IsLater (s s' : Server Disk) (fd : ℕ) : Type 0 where
    pub listens : s'.listen_fd ≡ s.listen_fd
    pub waiting : (fd == s.listen_fd) ≡ false → s'.backlog ≡ s.backlog
    pub watched :
        (k : ℕ)
        → (fd == k) ≡ false
        → ((fd == s.listen_fd) ≡ true → Accepted k s.backlog → ⊥)
        → s'.interests k ≡ s.interests k

  accept_loop-listen_fd :
      (accepts : List Accept) (s : Server Disk) → (accept_loop accepts s).listen_fd ≡ s.listen_fd
  unfolding accept_loop accept_one
  accept_loop-listen_fd [] s = refl
  accept_loop-listen_fd (connection fd ∷ rest) s = accept_loop-listen_fd rest (accept_one fd s)
  accept_loop-listen_fd (interrupted_accept ∷ rest) s = accept_loop-listen_fd rest s
  accept_loop-listen_fd (no_connection ∷ rest) s = refl

  accept_loop-watched :
      (accepts : List Accept) (s : Server Disk) (k : ℕ)
      → (Accepted k accepts → ⊥)
      → (accept_loop accepts s).interests k ≡ s.interests k
  unfolding accept_loop accept_one
  accept_loop-watched [] s k apart = refl
  accept_loop-watched (connection fd ∷ rest) s k apart =
      accept_loop-watched rest (accept_one fd s) k (λ a. apart (inr a))
      ∙ update_other s.interests fd k _ (different fd k (λ e. apart (inl e)))
  accept_loop-watched (interrupted_accept ∷ rest) s k apart = accept_loop-watched rest s k apart
  accept_loop-watched (no_connection ∷ rest) s k apart = refl

  unfocus-IsLater : (fd : ℕ) (s : Server Disk) (m : Machine Disk) → IsLater s (unfocus fd m s) fd
  unfocus-IsLater fd s m = record {
    listens = refl;
    waiting = λ l. refl;
    watched = λ k e apart. update_other s.interests fd k m.interest e;
  }

  same-IsLater : (fd : ℕ) (s : Server Disk) → IsLater s s fd
  same-IsLater fd s = record { listens = refl; waiting = λ l. refl; watched = λ k e apart. refl }

module _ (fs : FileSystem) where
  open fs use {Disk}

  put_back-IsLater :
      (fd : ℕ) (s s' : Server Disk) (m : Option (Machine Disk))
      → put_back_client fs fd m s ≡ some s'
      → IsLater s s' fd
  put_back-IsLater fd s s' none e = absurd (none-some e)
  put_back-IsLater fd s s' (some m) e =
      subst (λ z. IsLater s z fd) (some_eq e) (unfocus-IsLater fd s m)

  serve_client-IsLater :
      (fd mask : ℕ) (s s' : Server Disk) → serve_client fs fd mask s ≡ some s' → IsLater s s' fd
  unfolding serve_client
  serve_client-IsLater fd mask s s' e = elim (Option-cases (dictionary_get s.fd_to_client fd)) [
    | inl out ↦
        let at : serve_client fs fd mask s ≡ some s = rw (serve_client, out) refl in
        subst (λ z. IsLater s z fd) (some_eq (sym at ∙ e)) (same-IsLater fd s)
    | inr (c, out) ↦
        let at : serve_client fs fd mask s
            ≡ put_back_client fs fd (dispatch_event fs mask (focus fd c s)) s =
          rw (serve_client, out) refl in
        put_back-IsLater fd s s' (dispatch_event fs mask (focus fd c s)) (sym at ∙ e)
  ]

  pub serve_event-IsLater :
      (fd mask : ℕ) (s s' : Server Disk) → serve_event fs fd mask s ≡ some s' → IsLater s s' fd
  unfolding serve_event accept_connections
  serve_event-IsLater fd mask s s' e = elim (Bool-cases (fd == s.listen_fd)) [
    | inl l ↦
        let at : serve_event fs fd mask s ≡ some (accept_connections s) =
          rw (serve_event, l) refl in
        subst (λ z. IsLater s z fd) (some_eq (sym at ∙ e))
          (record {
            listens = accept_loop-listen_fd s.backlog s;
            waiting = λ apart. absurd (true-false (sym l ∙ apart));
            watched = λ k other apart. accept_loop-watched s.backlog s k (apart l);
          })
    | inr l ↦
        let at : serve_event fs fd mask s ≡ serve_client fs fd mask s = rw (serve_event, l) refl in
        serve_client-IsLater fd mask s s' (sym at ∙ e)
  ]
