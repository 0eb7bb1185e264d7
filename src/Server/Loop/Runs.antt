-- ===== src/Server/Loop/Runs.antt =====
-- Runs of the server: batches of events, with what clients and the kernel do between them.
use file_system_server.Base.{
  true-false, some_eq, ℕ, ◌≡◌, refl, sym, subst, ◌∙◌, inl, inr, true, false, List, [], ◌∷◌, some,
  arith, ◌==◌, ==_iff, Bool-cases,
}
use file_system_server.Os.{Socket, FileSystem}
use file_system_server.Server.Invariant.Events.{Reported}
use file_system_server.Server.Loop.{
  Wait, Outside, meanwhile, ready, interrupted_wait, failed_wait, main_loop, Server, server_start,
  Accept, serve_events,
}
use file_system_server.Server.Loop.Accepting.{Accepted}
use file_system_server.Server.Loop.Safety.{IsServer, server_start-IsServer, serve_event-IsServer}
use file_system_server.Server.Loop.Batches.{Others, Polled, IsLater, serve_event-IsLater}

once : (g k n : ℕ) → (g == k) ≡ false → (g == n) ≡ true → (k == n) ≡ false
once g k n other at = elim (Bool-cases (k == n)) [
  | inl e ↦
      absurd
        (true-false (sym ((==_iff g k).1 ((==_iff g n).0 at ∙ sym ((==_iff k n).0 e))) ∙ other))
  | inr e ↦ e
]

module _ {Disk : Type 0} where
  -- An entry behind the listening one is not about the listening descriptor.
  Others-kept :
      (fd g : ℕ) (s s' : Server Disk) (events : List (ℕ × ℕ))
      → IsLater s s' g
      → ((g == s.listen_fd) ≡ true → (fd == s.listen_fd) ≡ false)
      → Others s fd events
      → Others s' fd events
  Others-kept fd g s s' [] l away o = tt
  Others-kept fd g s s' ((k, mask) ∷ events) l away (other, taken, o) =
      (other, still, Others-kept fd g s s' events l away o)
    where
      contrary : (fd == s'.listen_fd) ≡ true → (g == s.listen_fd) ≡ true → ⊥
      contrary e at =
          let e' : (fd == s.listen_fd) ≡ true = subst (λ z. (fd == z) ≡ true) l.listens e in
          let f' = away at in ground arith

      still : (fd == s'.listen_fd) ≡ true → Accepted k s'.backlog → ⊥
      still e a = elim (Bool-cases (g == s.listen_fd)) [
        | inl at ↦ contrary e at
        | inr off ↦
            taken (subst (λ z. (fd == z) ≡ true) l.listens e) (subst (Accepted k) (l.waiting off) a)
      ]

  -- What is left of a batch once its first entry is served.
  Polled-kept :
      (g : ℕ) (s s' : Server Disk) (events : List (ℕ × ℕ))
      → IsLater s s' g
      → Others s g events
      → Polled s events
      → Polled s' events
  Polled-kept g s s' [] l o p = tt
  Polled-kept g s s' ((fd, mask) ∷ events) l (other, taken, o) (rep, later, p) = (
    subst (Reported mask) (sym (l.watched fd other taken)) rep,
    Others-kept fd g s s' events l (once g fd s.listen_fd other) later,
    Polled-kept g s s' events l o p,
  )

module _ (fs : FileSystem) where
  open fs use {Disk}

  -- On a server whose table, list and connections are as they should be, a whole batch of events is
  -- served without a use of freed memory and they are so again. The batch has each descriptor in one
  -- entry, for what is watched on it when the batch is reported, and no connection accepted on the way
  -- gets the descriptor of a later entry.
  pub serve_events-IsServer :
      (events : List (ℕ × ℕ)) (s : Server Disk)
      → IsServer s
      → Polled s events
      → (s' : Server Disk) × (serve_events fs events s ≡ some s') × IsServer s'
  unfolding serve_events
  serve_events-IsServer [] s h p = (s, refl, h)
  serve_events-IsServer ((fd, mask) ∷ events) s h (rep, others, p) =
      let (s1, out, h1) = serve_event-IsServer fs fd mask s h rep in
      let (s2, end, h2) =
        serve_events-IsServer events s1 h1
          (Polled-kept fd s s1 events (serve_event-IsLater fs fd mask s s1 out) others p) in
      (s2, rw (serve_events, out) end, h2)

  -- Between two batches clients send and close, connections arrive, and files change.
  pub data Reach (first : Server Disk) : Server Disk → Type 0 where
    started : Reach first first
    outside :
        {s : Server Disk} (sockets : ℕ → Socket) (backlog : List Accept) (disk : Disk)
        → Reach first s
        → Reach first (record s { sockets = sockets; backlog = backlog; disk = disk })
    batch :
        {s s' : Server Disk} (events : List (ℕ × ℕ))
        → Polled s events
        → serve_events fs events s ≡ some s'
        → Reach first s
        → Reach first s'

  Reach-IsServer : {first s : Server Disk} → IsServer first → Reach first s → IsServer s
  Reach-IsServer h started = h
  Reach-IsServer h (outside sockets backlog disk r) =
      let is = Reach-IsServer h r in
      record { table = is.table; room = is.room; names = is.names; clients = is.clients }
  Reach-IsServer h (batch events p out r) =
      let (s2, out', is) = serve_events-IsServer events _ (Reach-IsServer h r) p in
      subst IsServer (some_eq (sym out' ∙ out)) is

  pub reached_server-IsServer :
      (temp_dir : List ℕ) (listen_fd : ℕ) (sockets : ℕ → Socket) (disk : Disk) (s : Server Disk)
      (events : List (ℕ × ℕ))
      → Reach (server_start temp_dir listen_fd sockets disk) s
      → Polled s events
      → (s' : Server Disk) × (serve_events fs events s ≡ some s') × IsServer s × IsServer s'
  reached_server-IsServer temp_dir listen_fd sockets disk s events r p =
      let h = Reach-IsServer (server_start-IsServer temp_dir listen_fd sockets disk) r in
      let (s', out, is) = serve_events-IsServer events s h p in (s', out, h, is)

  -- Each batch that `event_loop_wait` returns to the loop is one that it may report on the state it meets.
  abbrev pub Polls : List (Outside Disk × Wait) → Server Disk → Type 0
  Polls [] s = Unit
  Polls ((world, interrupted_wait) ∷ waits) s = Polls waits (meanwhile world s)
  Polls ((world, failed_wait) ∷ waits) s = Unit
  Polls ((world, ready events) ∷ waits) s =
      Polled (meanwhile world s) events
      × ((s' : Server Disk) → serve_events fs events (meanwhile world s) ≡ some s' → Polls waits s')

  -- From a server that batches have led to: the loop of `main`, with any change of the sockets, of the
  -- connections that wait and of the disk up to the return of each wait, on waits that are interrupted,
  -- fail, or give a batch that `event_loop_wait` may report on the state it meets, never uses freed
  -- memory, and it ends in a server that batches have led to, whose table, list and connections are as they
  -- should be.
  pub main_loop-Reach :
      (temp_dir : List ℕ) (listen_fd : ℕ) (sockets : ℕ → Socket) (disk : Disk)
      (waits : List (Outside Disk × Wait)) (s : Server Disk)
      → Reach (server_start temp_dir listen_fd sockets disk) s
      → Polls waits s
      → (s' : Server Disk) × (main_loop fs waits s ≡ some s')
        × Reach (server_start temp_dir listen_fd sockets disk) s'
        × IsServer s'
  unfolding main_loop
  main_loop-Reach temp_dir listen_fd sockets disk [] s r p =
      (s, refl, r, Reach-IsServer (server_start-IsServer temp_dir listen_fd sockets disk) r)
  main_loop-Reach temp_dir listen_fd sockets disk ((world, interrupted_wait) ∷ waits) s r p =
      main_loop-Reach temp_dir listen_fd sockets disk waits (meanwhile world s)
        (outside world.arrivals world.callers world.files r) p
  main_loop-Reach temp_dir listen_fd sockets disk ((world, failed_wait) ∷ waits) s r p =
      let r' = outside world.arrivals world.callers world.files r in
      (
        meanwhile world s,
        refl,
        r',
        Reach-IsServer (server_start-IsServer temp_dir listen_fd sockets disk) r',
      )
  main_loop-Reach temp_dir listen_fd sockets disk ((world, ready events) ∷ waits) s r (p, later) =
      let r' = outside world.arrivals world.callers world.files r in
      let (s1, out, before, is) =
        reached_server-IsServer temp_dir listen_fd sockets disk (meanwhile world s) events r' p in
      let (s2, end, r2, is2) =
        main_loop-Reach temp_dir listen_fd sockets disk waits s1 (batch events p out r')
          (later s1 out) in
      (s2, rw (main_loop, out) end, r2, is2)
