-- ===== src/Server/Setup/Main.antt =====
-- `main` without its loop: what it opens before, and closes behind it.
use file_system_server.Base.{ℕ, ◌≡◌, refl, Bool, true, false, List, [], ◌∷◌, Option, none, some}
use file_system_server.EventLoop.{event_read}
use file_system_server.Os.Kernel.{Kernel, IsKernel, Same, Opens, Opened}
use file_system_server.Os.Descriptors.{
  Same-then, Same-Opens, Opens-Same, Opens-Closes, Opens-Closes-in_order,
}
use file_system_server.Server.Setup.{
  SetUp, stopped, serving, cleanup, cleanup_temp_directory, looped, bound_on, in_directory,
  create_and_bind_socket, set_up,
}
use file_system_server.Server.Setup.Sockets.{create_and_bind_socket-Bound, Bound}
use file_system_server.Server.Setup.Directory.{cleanup_temp_directory-Same}

module _ (k : Kernel) (h : IsKernel k) where
  open k use {World, close, mkdtemp, event_loop_create, event_loop_add}
  open h use {is_open, close_closes, loop_opens, add_same, mkdtemp_same}

  -- `main` has stopped with the open descriptors as they were; or it has two more, the listening socket
  -- and the event loop, and `cleanup` closes both.
  abbrev pub Prepared : World → SetUp World → Type 0
  Prepared w (stopped status w') = (status ≡ 1) × Same is_open w w'
  Prepared w (serving listen_fd loop dir w') =
      ((w1 : World) × Opens is_open listen_fd w w1 × Opens is_open loop w1 w')
      × Same is_open w (cleanup k (some dir) (some listen_fd) (some loop) w')

  Same-Prepared : (a b : World) (r : SetUp World) → Same is_open a b → Prepared b r → Prepared a r
  Same-Prepared a b (stopped status c) s p = (p.0, Same-then is_open a b c s p.1)
  Same-Prepared a b (serving listen_fd loop dir c) s ((w1, o, q), t) =
      ((w1, Same-Opens is_open listen_fd a b w1 s o, q), Same-then is_open a b _ s t)

  looped-Prepared :
      (dir : List ℕ) (fd : ℕ) (w w1 w2 : World) (r : Option ℕ)
      → Opens is_open fd w w1
      → Opened is_open w1 r w2
      → Prepared w (looped k dir fd (r, w2))
  unfolding cleanup
  looped-Prepared dir fd w w1 w2 none o q =
      let w3 = cleanup_temp_directory k (some dir) w2 in
      let o3 =
        Opens-Same is_open fd w w1 w3 o
          (Same-then is_open w1 w2 w3 q (cleanup_temp_directory-Same k h (some dir) w2)) in
      (refl, Opens-Closes is_open fd w w3 (close fd w3) o3 (close_closes fd w3))
  looped-Prepared dir fd w w1 w2 (some loop) o q =
      let w3 = event_loop_add loop fd event_read w2 in
      let w4 = cleanup_temp_directory k (some dir) w3 in
      let q3 = Opens-Same is_open loop w1 w2 w3 q (add_same loop fd event_read w2) in
      let q4 =
        Opens-Same is_open loop w1 w3 w4 q3 (cleanup_temp_directory-Same k h (some dir) w3) in
      (
        (w1, o, q3),
        Opens-Closes-in_order is_open fd loop w w1 w4 (close fd w4) (close loop (close fd w4)) o q4
            (close_closes fd w4) (close_closes loop (close fd w4)),
      )

  bound_on-Prepared :
      (dir : List ℕ) (w w1 : World) (r : Option ℕ)
      → Bound k h w r w1
      → Prepared w (bound_on k dir (r, w1))
  unfolding cleanup
  bound_on-Prepared dir w w1 none s =
      (refl, Same-then is_open w w1 _ s (cleanup_temp_directory-Same k h (some dir) w1))
  bound_on-Prepared dir w w1 (some fd) (o, ready) =
      looped-Prepared dir fd w w1 (event_loop_create w1).1 (event_loop_create w1).0 o
        (loop_opens w1)

  in_directory-Prepared :
      (port : List ℕ) (w w1 : World) (r : Option (List ℕ))
      → Same is_open w w1
      → Prepared w (in_directory k port (r, w1))
  in_directory-Prepared port w w1 none s = (refl, s)
  in_directory-Prepared port w w1 (some dir) s =
      Same-Prepared w w1 (bound_on k dir (create_and_bind_socket k port w1)) s
        (bound_on-Prepared dir w1 _ _ (create_and_bind_socket-Bound k h port w1))

  -- For any arguments, memory and failing calls: the set-up of `main` returns 1 with the same
  -- descriptors open as before it; or it goes into the loop with two new ones, and `cleanup` then leaves
  -- the descriptors from before. This is on a kernel that does what its manual says.
  pub set_up-Prepared :
      (vector_made dictionary_made : Bool) (argv : List (List ℕ)) (w : World)
      → Prepared w (set_up k vector_made dictionary_made argv w)
  unfolding set_up
  set_up-Prepared v d [] w = (refl, λ j. refl)
  set_up-Prepared v d (program ∷ []) w = (refl, λ j. refl)
  set_up-Prepared false d (program ∷ port ∷ []) w = (refl, λ j. refl)
  set_up-Prepared true false (program ∷ port ∷ []) w = (refl, λ j. refl)
  set_up-Prepared true true (program ∷ port ∷ []) w =
      in_directory-Prepared port w (mkdtemp w).1 (mkdtemp w).0 (mkdtemp_same w)
  set_up-Prepared v d (program ∷ port ∷ more ∷ rest) w = (refl, λ j. refl)
