-- ===== src/Client/Connect.antt =====
-- client.c, `connect_to_server`: the first address is the one that is tried.
use file_system_server.Base.{
  ℕ, ◌≡◌, refl, sym, subst, inl, inr, Bool, true, false, List, Option, none, some, Bool-cases,
}
use file_system_server.Os.Kernel.{Kernel, IsKernel, Opened}
use file_system_server.Os.Descriptors.{Opens-Same, Opens-Closes}

module _ (k : Kernel) where
  open k use {World, Address, getaddrinfo, socket, connect, close}

  abbrev pub connected_socket : ℕ → Bool × World → Option ℕ × World
  connected_socket fd (true, w) = (some fd, w)
  connected_socket fd (false, w) = (none, close fd w)

  abbrev pub with_socket : Address → Option ℕ × World → Option ℕ × World
  with_socket a (none, w) = (none, w)
  with_socket a (some fd, w) = connected_socket fd (connect fd a w)

  abbrev pub with_result : Option (Address × List Address) → World → Option ℕ × World
  with_result none w = (none, w)
  with_result (some (first, rest)) w = with_socket first (socket first w)

  unfoldable pub connect_to_server : (host port : List ℕ) → World → Option ℕ × World
  connect_to_server host port w = with_result (getaddrinfo (some host) port w) w

  module _ (h : IsKernel k) where
    open h use {is_open, socket_opens, connect_same, close_closes}

    abbrev After : World → Option ℕ × World → Type 0
    After w r = Opened is_open w r.0 r.1

    with_socket-Opened :
        (a : Address) (w : World) (r : Option ℕ × World) → After w r → After w (with_socket a r)
    with_socket-Opened a w (none, w1) o = o
    with_socket-Opened a w (some fd, w1) o =
        let w2 = (connect fd a w1).1 in
        let o2 = Opens-Same is_open fd w w1 w2 o (connect_same fd a w1) in
        elim (Bool-cases (connect fd a w1).0) [
          | inl ok ↦
              let at : with_socket a (some fd, w1) ≡ (some fd, w2) = rw ok refl in
              subst (After w) (sym at) o2
          | inr bad ↦
              let at : with_socket a (some fd, w1) ≡ (none, close fd w2) = rw bad refl in
              subst (After w) (sym at)
                (Opens-Closes is_open fd w w2 (close fd w2) o2 (close_closes fd w2))
        ]

    -- Whichever calls fail: `connect_to_server` gives a descriptor that was not open, and it is the only
    -- one that is open and was not; or it gives none and the open descriptors are those from before.
    -- This is on a kernel that does what its manual says.
    pub connect_to_server-Opened :
        (host port : List ℕ) (w : World)
        → Opened is_open w (connect_to_server host port w).0 (connect_to_server host port w).1
    unfolding connect_to_server
    connect_to_server-Opened host port w = opened (getaddrinfo (some host) port w)
      where
        opened : (r : Option (Address × List Address)) → After w (with_result r w)
        opened none = λ j. refl
        opened (some (first, rest)) =
            with_socket-Opened first w (socket first w) (socket_opens first w)
