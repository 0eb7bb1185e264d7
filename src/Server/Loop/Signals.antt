-- ===== src/Server/Loop/Signals.antt =====
-- The loop of `main` with the flag that SIGINT clears.
use file_system_server.Base.{
  ℕ, ◌≡◌, refl, ap, ◌∙◌, Bool, true, false, List, [], ◌∷◌, ◌++◌, Option, none, some, ◌==◌, ==_refl,
  if◌then◌else◌, Bool-cases, inl, inr, Option-cases,
}
use file_system_server.Os.{Socket, FileSystem}
use file_system_server.Server.Loop.{
  Server, Wait, Outside, meanwhile, ready, interrupted_wait, failed_wait, serve_events, main_loop,
  server_start,
}
use file_system_server.Server.Loop.Runs.{Reach, Polls, main_loop-Reach}
use file_system_server.Server.Loop.Safety.{IsServer}

-- `signal_handler`, on `running`; `sigint` is the number of SIGINT.
unfoldable pub signal_handler : (sigint sig : ℕ) → Bool → Bool
signal_handler sigint sig running = if sig == sigint then false else running

-- The signals that come before the flag is read again.
unfoldable pub deliver : ℕ → List ℕ → Bool → Bool
unfolding signal_handler
deliver sigint [] running = running
deliver sigint (sig ∷ sigs) running = deliver sigint sigs (signal_handler sigint sig running)

module _ (sigint : ℕ) (fs : FileSystem) where
  open fs use {Disk}

  -- `while (running)`: what happens outside up to the return of each call of `event_loop_wait` and
  -- what it returns, with the signals that come until the next look at `running`.
  unfoldable pub running_loop :
      Bool → List (List ℕ × Outside Disk × Wait) → Server Disk → Option (Server Disk)
  unfolding deliver
  running_loop running [] s = some s
  running_loop false (turn ∷ turns) s = some s
  running_loop true ((signals, world, interrupted_wait) ∷ turns) s =
      running_loop (deliver sigint signals true) turns (meanwhile world s)
  running_loop true ((signals, world, failed_wait) ∷ turns) s = some (meanwhile world s)
  running_loop true ((signals, world, ready events) ∷ turns) s =
      elim (serve_events fs events (meanwhile world s)) [
        | none ↦ none
        | some s' ↦ running_loop (deliver sigint signals true) turns s'
      ]

  -- The waits up to the one at which SIGINT comes.
  abbrev pub waits_until : Bool → List (List ℕ × Outside Disk × Wait) → List (Outside Disk × Wait)
  waits_until running [] = []
  waits_until false (turn ∷ turns) = []
  waits_until true ((signals, world, wait) ∷ turns) =
      (world, wait) ∷ waits_until (deliver sigint signals true) turns

  pub running_loop-main_loop :
      (running : Bool) (turns : List (List ℕ × Outside Disk × Wait)) (s : Server Disk)
      → running_loop running turns s ≡ main_loop fs (waits_until running turns) s
  unfolding running_loop main_loop
  running_loop-main_loop running [] s = refl
  running_loop-main_loop false (turn ∷ turns) s = refl
  running_loop-main_loop true ((signals, world, interrupted_wait) ∷ turns) s =
      running_loop-main_loop (deliver sigint signals true) turns (meanwhile world s)
  running_loop-main_loop true ((signals, world, failed_wait) ∷ turns) s = refl
  running_loop-main_loop true ((signals, world, ready events) ∷ turns) s =
      elim (Option-cases (serve_events fs events (meanwhile world s))) [
        | inl e ↦ rw (e, running_loop, main_loop) refl
        | inr (s', e) ↦
            rw (e, running_loop, main_loop)
              (running_loop-main_loop (deliver sigint signals true) turns s')
      ]

  deliver-stopped : (sigs : List ℕ) → deliver sigint sigs false ≡ false
  unfolding deliver signal_handler
  deliver-stopped [] = refl
  deliver-stopped (sig ∷ sigs) = elim (Bool-cases (sig == sigint)) [
    | inl e ↦ rw e (deliver-stopped sigs)
    | inr e ↦ rw e (deliver-stopped sigs)
  ]

  deliver-sigint :
      (before after : List ℕ) (running : Bool)
      → deliver sigint (before ++ sigint ∷ after) running ≡ false
  unfolding deliver signal_handler
  deliver-sigint [] after running =
      ap (λ b. deliver sigint after (if b then false else running)) (==_refl sigint)
      ∙ deliver-stopped after
  deliver-sigint (sig ∷ sigs) after running =
      deliver-sigint sigs after (signal_handler sigint sig running)

  running_loop-stopped :
      (turns : List (List ℕ × Outside Disk × Wait)) (s : Server Disk)
      → running_loop false turns s ≡ some s
  unfolding running_loop
  running_loop-stopped [] s = refl
  running_loop-stopped (turn ∷ turns) s = refl

  last_turn :
      (signals : List ℕ) (world : Outside Disk) (wait : Wait)
      (later : List (List ℕ × Outside Disk × Wait)) (s : Server Disk)
      → deliver sigint signals true ≡ false
      → running_loop true ((signals, world, wait) ∷ later) s
        ≡ running_loop true ((signals, world, wait) ∷ []) s
  unfolding running_loop
  last_turn signals world interrupted_wait later s e =
      ap (λ b. running_loop b later (meanwhile world s)) e
      ∙ running_loop-stopped later (meanwhile world s)
  last_turn signals world failed_wait later s e = refl
  last_turn signals world (ready events) later s e =
      elim (Option-cases (serve_events fs events (meanwhile world s))) [
        | inl out ↦ rw (out, running_loop) refl
        | inr (s', out) ↦
            rw (out, running_loop)
              (ap (λ b. running_loop b later s') e ∙ running_loop-stopped later s')
      ]

  -- Turns behind the one in which SIGINT comes are not served.
  sigint_stops :
      (running : Bool) (turns later : List (List ℕ × Outside Disk × Wait)) (before after : List ℕ)
      (world : Outside Disk) (wait : Wait) (s : Server Disk)
      → running_loop running (turns ++ ((before ++ sigint ∷ after, world, wait) ∷ later)) s
        ≡ running_loop running (turns ++ ((before ++ sigint ∷ after, world, wait) ∷ [])) s
  unfolding running_loop
  sigint_stops false [] later before after final wait s = refl
  sigint_stops true [] later before after final wait s =
      last_turn (before ++ sigint ∷ after) final wait later s (deliver-sigint before after true)
  sigint_stops false (turn ∷ turns) later before after final wait s = refl
  sigint_stops true ((signals, world, interrupted_wait) ∷ turns) later before after final wait s =
      sigint_stops (deliver sigint signals true) turns later before after final wait
        (meanwhile world s)
  sigint_stops true ((signals, world, failed_wait) ∷ turns) later before after final wait s = refl
  sigint_stops true ((signals, world, ready events) ∷ turns) later before after final wait s =
      elim (Option-cases (serve_events fs events (meanwhile world s))) [
        | inl out ↦ rw (out, running_loop) refl
        | inr (s', out) ↦
            rw (out, running_loop)
              (sigint_stops (deliver sigint signals true) turns later before after final wait s')
      ]

  -- From a server that batches have led to, and a run of the loop of `main` in which SIGINT comes at
  -- some turn, with any change of the sockets, of the connections that wait and of the disk up to the
  -- return of each wait, on waits up to then that are interrupted, fail, or give a batch that
  -- `event_loop_wait` may report on the state it meets: the loop never uses freed memory, comes, whatever follows that
  -- turn, to the server that the waits up to it lead to, and that server is one that batches have led
  -- to, whose table, list and connections are as they should be.
  pub running_loop-Reach :
      (temp_dir : List ℕ) (listen_fd : ℕ) (sockets : ℕ → Socket) (disk : Disk)
      (turns later : List (List ℕ × Outside Disk × Wait)) (before after : List ℕ)
      (world : Outside Disk) (wait : Wait) (s : Server Disk)
      → Reach fs (server_start temp_dir listen_fd sockets disk) s
      → Polls fs (waits_until true (turns ++ ((before ++ sigint ∷ after, world, wait) ∷ []))) s
      → (s' : Server Disk) × (running_loop true
            (turns ++ ((before ++ sigint ∷ after, world, wait) ∷ later))
            s
          ≡ some s')
        × (main_loop fs
              (waits_until true (turns ++ ((before ++ sigint ∷ after, world, wait) ∷ [])))
              s
            ≡ some s')
        × Reach fs (server_start temp_dir listen_fd sockets disk) s'
        × IsServer s'
  running_loop-Reach temp_dir listen_fd sockets disk turns later before after world wait s r p =
      let stop = turns ++ ((before ++ sigint ∷ after, world, wait) ∷ []) in
      let (s', out, r', is) =
        main_loop-Reach fs temp_dir listen_fd sockets disk (waits_until true stop) s r p in
      (
        s',
        sigint_stops true turns later before after world wait s
            ∙ running_loop-main_loop true stop s
            ∙ out,
        out,
        r',
        is,
      )
