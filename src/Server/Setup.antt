-- ===== src/Server/Setup.antt =====
-- server.c, the functions around the loop of `main`: the listening socket, the temporary directory, the
-- set-up of `main` and the clean-up behind the loop.
pub mod Sockets
pub mod Directory
pub mod Main
pub mod Run
pub mod Returns
use file_system_server.Base.{
  ℕ, Bool, true, false, List, [], ◌∷◌, ◌++◌, Option, none, some, take, str_eq, codes, if◌then◌else◌,
}
use file_system_server.EventLoop.{event_read}
use file_system_server.Os.Kernel.{Kernel, is_dots}

-- `main` before its loop: the status that it returns, or what it goes into the loop with.
pub data SetUp (World : Type 0) : Type 0 where
  stopped : ℕ → World → SetUp World
  serving : (listen_fd event_loop_fd : ℕ) (temp_dir : List ℕ) → World → SetUp World

module _ (k : Kernel) where
  open k use {
    World, Address, getaddrinfo, socket, reuse, bind, listen, getfl, setfl, nonblock, close,
    mkdtemp, opendir, closedir, unlink, rmdir, event_loop_create, event_loop_add,
  }

  abbrev pub with_flags : ℕ → Option ℕ → World → Bool × World
  with_flags fd none w = (false, w)
  with_flags fd (some flags) w = setfl fd (nonblock flags) w

  unfoldable pub make_socket_nonblocking : ℕ → World → Bool × World
  make_socket_nonblocking fd w = with_flags fd (getfl fd w) w

  -- The loop over the addresses.
  unfoldable pub bind_loop : List Address → World → Option ℕ × World
  bind_loop [] w = (none, w)
  bind_loop (current ∷ rest) w = elim (socket current w).0 [
    | none ↦ bind_loop rest (socket current w).1
    | some fd ↦
        let (bound, w2) = bind fd current (reuse fd (socket current w).1) in
        elim bound [ true ↦ (some fd, w2) | false ↦ bind_loop rest (close fd w2) ]
  ]

  -- A step on the socket that has to succeed: where it does not, the socket is closed.
  abbrev pub or_close : ℕ → Bool × World → Option ℕ × World
  or_close fd (true, w) = (some fd, w)
  or_close fd (false, w) = (none, close fd w)

  abbrev pub made_nonblocking : ℕ → Bool × World → Option ℕ × World
  made_nonblocking fd (true, w) = or_close fd (make_socket_nonblocking fd w)
  made_nonblocking fd (false, w) = (none, close fd w)

  abbrev pub listened : Option ℕ × World → Option ℕ × World
  listened (none, w) = (none, w)
  listened (some fd, w) = made_nonblocking fd (listen fd w)

  abbrev pub with_addresses : Option (Address × List Address) → World → Option ℕ × World
  with_addresses none w = (none, w)
  with_addresses (some (first, rest)) w = listened (bind_loop (first ∷ rest) w)

  unfoldable pub create_and_bind_socket : List ℕ → World → Option ℕ × World
  create_and_bind_socket port w = with_addresses (getaddrinfo none port w) w

  -- The loop over the entries of the directory; the path is cut to its buffer.
  unfoldable pub unlink_entries : List ℕ → List (List ℕ) → World → World
  unlink_entries dir [] w = w
  unlink_entries dir (name ∷ names) w =
      unlink_entries dir names
        (if is_dots name then w else unlink (take 1023 (dir ++ b'/' ∷ name)) w)

  abbrev pub emptied : List ℕ → Option (ℕ × List (List ℕ)) × World → World
  emptied dir (none, w) = w
  emptied dir (some (d, names), w) = closedir d (unlink_entries dir names w)

  unfoldable pub cleanup_temp_directory : Option (List ℕ) → World → World
  cleanup_temp_directory none w = w
  cleanup_temp_directory (some dir) w = rmdir dir (emptied dir (opendir dir w))

  abbrev pub close_descriptor : Option ℕ → World → World
  close_descriptor none w = w
  close_descriptor (some fd) w = close fd w

  -- `cleanup`, but for memory: `temp_dir`, `listen_fd` and `event_loop_fd` are its globals.
  unfoldable pub cleanup : Option (List ℕ) → Option ℕ → Option ℕ → World → World
  cleanup temp_dir listen_fd event_loop_fd w =
      close_descriptor event_loop_fd
        (close_descriptor listen_fd (cleanup_temp_directory temp_dir w))

  -- From `event_loop_create` on.
  abbrev pub looped : List ℕ → ℕ → Option ℕ × World → SetUp World
  looped dir listen_fd (none, w) = stopped 1 (cleanup (some dir) (some listen_fd) none w)
  looped dir listen_fd (some loop, w) =
      serving listen_fd loop dir (event_loop_add loop listen_fd event_read w)

  -- From `create_and_bind_socket` on.
  abbrev pub bound_on : List ℕ → Option ℕ × World → SetUp World
  bound_on dir (none, w) = stopped 1 (cleanup (some dir) none none w)
  bound_on dir (some listen_fd, w) = looped dir listen_fd (event_loop_create w)

  -- From `build_temp_directory` on, which exits where it cannot make one.
  abbrev pub in_directory : List ℕ → Option (List ℕ) × World → SetUp World
  in_directory port (none, w) = stopped 1 w
  in_directory port (some dir, w) = bound_on dir (create_and_bind_socket port w)

  -- `main` up to its loop; `vector_made` and `dictionary_made` say whether there is memory for the
  -- two collections.
  unfoldable pub set_up : (vector_made dictionary_made : Bool) → List (List ℕ) → World → SetUp World
  set_up vector_made dictionary_made (program ∷ port ∷ []) w =
      if vector_made
      then (if dictionary_made then in_directory port (mkdtemp w) else stopped 1 w)
      else stopped 1 w
  set_up vector_made dictionary_made _ w = stopped 1 w
