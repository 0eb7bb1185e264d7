-- ===== src/Server/Setup/Sockets.antt =====
-- The listening socket: what `create_and_bind_socket` leaves open.
use file_system_server.Base.{
  ℕ, ◌≡◌, refl, sym, subst, ◌∙◌, inl, inr, true, List, [], ◌∷◌, Option, none, some, Bool-cases,
  Option-cases,
}
use file_system_server.Os.Kernel.{Kernel, IsKernel, Same, Opens, Opened}
use file_system_server.Os.Descriptors.{Same-then, Opens-Same, Same-Opened, Opens-Closes}
use file_system_server.Server.Setup.{
  with_flags, make_socket_nonblocking, bind_loop, or_close, listened, with_addresses,
  create_and_bind_socket,
}

module _ (k : Kernel) (h : IsKernel k) where
  open k use {
    World, Address, getaddrinfo, socket, reuse, bind, listen, getfl, setfl, nonblock, close,
  }
  open h use {
    is_open, is_listening, socket_opens, reuse_same, bind_same, listen_same, listen_listens,
    setfl_same, setfl_listens, setfl_sets, close_closes,
  }

  -- A listening socket whose calls do not block.
  pub record IsReady (fd : ℕ) (w : World) : Type 0 where
    pub listens : is_listening w fd ≡ true
    pub flags : ℕ
    pub never_blocks : getfl fd w ≡ some (nonblock flags)

  -- A new socket that is ready, or the descriptors as before.
  abbrev pub Bound : World → Option ℕ → World → Type 0
  Bound w none w' = Same is_open w w'
  Bound w (some fd) w' = Opens is_open fd w w' × IsReady fd w'

  closed-Same : (fd : ℕ) (w w1 : World) → Opens is_open fd w w1 → Same is_open w (close fd w1)
  closed-Same fd w w1 o = Opens-Closes is_open fd w w1 (close fd w1) o (close_closes fd w1)

  Opened-Opens :
      (a : Address) (w : World) (r : Option ℕ)
      → (socket a w).0 ≡ r
      → Opened is_open w r (socket a w).1
  Opened-Opens a w r e = subst (λ z. Opened is_open w z (socket a w).1) e (socket_opens a w)

  abbrev After : World → Option ℕ × World → Type 0
  After w r = Opened is_open w r.0 r.1

  Same-After : (a b : World) (r : Option ℕ × World) → Same is_open a b → After b r → After a r
  Same-After a b r s o = Same-Opened is_open r.0 a b r.1 s o

  bind_loop-Opened : (addresses : List Address) (w : World) → After w (bind_loop k addresses w)
  unfolding bind_loop
  bind_loop-Opened [] w = λ j. refl
  bind_loop-Opened (a ∷ rest) w = elim (Option-cases (socket a w).0) [
    | inl e ↦
        let at : bind_loop k (a ∷ rest) w ≡ bind_loop k rest (socket a w).1 =
          rw (bind_loop, e) refl in
        subst (After w) (sym at)
          (Same-After w (socket a w).1 _ (Opened-Opens a w none e) (bind_loop-Opened rest _))
    | inr (fd, e) ↦
        let w1 = (socket a w).1 in
        let w2 = (bind fd a (reuse fd w1)).1 in
        let o : Opens is_open fd w w2 =
          Opens-Same is_open fd w w1 w2 (Opened-Opens a w (some fd) e)
            (Same-then is_open w1 (reuse fd w1) w2 (reuse_same fd w1) (bind_same fd a _)) in
        elim (Bool-cases (bind fd a (reuse fd w1)).0) [
          | inl b ↦
              let at : bind_loop k (a ∷ rest) w ≡ (some fd, w2) = rw (bind_loop, e, b) refl in
              subst (After w) (sym at) o
          | inr b ↦
              let at : bind_loop k (a ∷ rest) w ≡ bind_loop k rest (close fd w2) =
                rw (bind_loop, e, b) refl in
              subst (After w) (sym at)
                (Same-After w (close fd w2) _ (closed-Same fd w w2 o) (bind_loop-Opened rest _))
        ]
  ]

  abbrev pub Ends : World → Option ℕ × World → Type 0
  Ends w r = Bound w r.0 r.1

  nonblocking-Bound :
      (fd : ℕ) (w w1 : World) (flags : Option ℕ)
      → getfl fd w1 ≡ flags
      → Opens is_open fd w w1
      → is_listening w1 fd ≡ true
      → Ends w (or_close k fd (with_flags k fd flags w1))
  nonblocking-Bound fd w w1 none e o l = closed-Same fd w w1 o
  nonblocking-Bound fd w w1 (some flags) e o l =
      elim (Bool-cases (setfl fd (nonblock flags) w1).0) [
        | inl ok ↦
            let w2 = (setfl fd (nonblock flags) w1).1 in
            let at : or_close k fd (setfl fd (nonblock flags) w1) ≡ (some fd, w2) = rw ok refl in
            subst (Ends w) (sym at) (
              Opens-Same is_open fd w w1 w2 o (setfl_same fd (nonblock flags) w1),
              record {
                listens = setfl_listens fd (nonblock flags) w1 ∙ l;
                flags = flags;
                never_blocks = setfl_sets fd (nonblock flags) w1 ok;
              },
            )
        | inr bad ↦
            let w2 = (setfl fd (nonblock flags) w1).1 in
            let at : or_close k fd (setfl fd (nonblock flags) w1) ≡ (none, close fd w2) =
              rw bad refl in
            subst (Ends w) (sym at) (
              closed-Same fd w w2
                (Opens-Same is_open fd w w1 w2 o (setfl_same fd (nonblock flags) w1)))
      ]

  listened-Bound : (w : World) (r : Option ℕ × World) → After w r → Ends w (listened k r)
  unfolding make_socket_nonblocking
  listened-Bound w (none, w1) o = o
  listened-Bound w (some fd, w1) o =
      let w2 = (listen fd w1).1 in
      let o2 : Opens is_open fd w w2 = Opens-Same is_open fd w w1 w2 o (listen_same fd w1) in
      elim (Bool-cases (listen fd w1).0) [
        | inl ok ↦
            let at : listened k (some fd, w1) ≡ or_close k fd (with_flags k fd (getfl fd w2) w2) =
              rw ok refl in
            subst (Ends w) (sym at)
              (nonblocking-Bound fd w w2 (getfl fd w2) refl o2 (listen_listens fd w1 ok))
        | inr bad ↦
            let at : listened k (some fd, w1) ≡ (none, close fd w2) = rw bad refl in
            subst (Ends w) (sym at) (closed-Same fd w w2 o2)
      ]

  -- Whichever calls fail: `create_and_bind_socket` gives a descriptor that was not open, listens and
  -- does not block, and is the only one that is open and was not; or it gives none and the open
  -- descriptors are those from before. This is on a kernel that does what its manual says.
  pub create_and_bind_socket-Bound :
      (port : List ℕ) (w : World)
      → Bound w (create_and_bind_socket k port w).0 (create_and_bind_socket k port w).1
  unfolding create_and_bind_socket
  create_and_bind_socket-Bound port w = bound (getaddrinfo none port w)
    where
      bound : (r : Option (Address × List Address)) → Ends w (with_addresses k r w)
      bound none = λ j. refl
      bound (some (first, rest)) =
          listened-Bound w (bind_loop k (first ∷ rest) w) (bind_loop-Opened (first ∷ rest) w)
