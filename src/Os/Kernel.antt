-- ===== src/Os/Kernel.antt =====
-- The calls that open sockets and directories, and what the manual pages say of descriptors and
-- directories after them.
use file_system_server.Base.{
  ℕ, ◌≡◌, Bool, true, false, List, [], ◌∷◌, ◌++◌, Option, none, some, ◌==◌, if◌then◌else◌, str_eq,
  codes,
}

-- The state is that of the kernel; `none` and `false` stand for the result -1. Without a host,
-- `getaddrinfo` is asked for addresses to bind; where it succeeds it gives at least one. `reuse` is the
-- two calls of `setsockopt`; `nonblock` sets O_NONBLOCK in the flags. `opendir` gives the names that
-- the calls of `readdir` return. The event loop is that which the build chooses.
pub record Kernel : Type 1 where
  pub World : Type 0
  pub Address : Type 0
  pub getaddrinfo : Option (List ℕ) → List ℕ → World → Option (Address × List Address)
  pub socket : Address → World → Option ℕ × World
  pub reuse : ℕ → World → World
  pub bind : ℕ → Address → World → Bool × World
  pub connect : ℕ → Address → World → Bool × World
  pub listen : ℕ → World → Bool × World
  pub getfl : ℕ → World → Option ℕ
  pub setfl : ℕ → ℕ → World → Bool × World
  pub nonblock : ℕ → ℕ
  pub close : ℕ → World → World
  pub mkdtemp : World → Option (List ℕ) × World
  pub opendir : List ℕ → World → Option (ℕ × List (List ℕ)) × World
  pub closedir : ℕ → World → World
  pub unlink : List ℕ → World → World
  pub rmdir : List ℕ → World → World
  pub event_loop_create : World → Option ℕ × World
  pub event_loop_add : ℕ → ℕ → ℕ → World → World

-- A state of the kernel in which the same descriptors are open as in another, one more is, or one less.
module _ {World : Type 0} (is_open : World → ℕ → Bool) where
  abbrev pub Same : World → World → Type 0
  Same w w' = (j : ℕ) → is_open w' j ≡ is_open w j

  abbrev pub Opens : ℕ → World → World → Type 0
  Opens fd w w' =
      (is_open w fd ≡ false) × ((j : ℕ) → is_open w' j ≡ (if fd == j then true else is_open w j))

  abbrev pub Closes : ℕ → World → World → Type 0
  Closes fd w w' = (j : ℕ) → is_open w' j ≡ (if fd == j then false else is_open w j)

  -- A call that gives a new descriptor, or none.
  abbrev pub Opened : World → Option ℕ → World → Type 0
  Opened w none w' = Same w w'
  Opened w (some fd) w' = Opens fd w w'

-- The names that `readdir` gives for a directory, less the two that are always there.
abbrev pub is_dots : List ℕ → Bool
is_dots name = if str_eq name (codes ".") then true else str_eq name (codes "..")

abbrev pub without_dots : List (List ℕ) → List (List ℕ)
without_dots [] = []
without_dots (name ∷ names) = if is_dots name then without_dots names else name ∷ without_dots names

module _ (k : Kernel) where
  open k use {
    World, Address, socket, reuse, bind, connect, listen, getfl, setfl, close, mkdtemp, opendir,
    closedir, unlink, rmdir, event_loop_create, event_loop_add,
  }

  -- What the calls do to the descriptors, and that a socket listens once `listen` has succeeded.
  pub record IsKernel : Type 0 where
    pub is_open : World → ℕ → Bool
    pub is_listening : World → ℕ → Bool
    pub socket_opens : (a : Address) (w : World) → Opened is_open w (socket a w).0 (socket a w).1
    pub reuse_same : (fd : ℕ) (w : World) → Same is_open w (reuse fd w)
    pub bind_same : (fd : ℕ) (a : Address) (w : World) → Same is_open w (bind fd a w).1
    pub connect_same : (fd : ℕ) (a : Address) (w : World) → Same is_open w (connect fd a w).1
    pub listen_same : (fd : ℕ) (w : World) → Same is_open w (listen fd w).1
    pub listen_listens :
        (fd : ℕ) (w : World) → (listen fd w).0 ≡ true → is_listening (listen fd w).1 fd ≡ true
    pub setfl_same : (fd flags : ℕ) (w : World) → Same is_open w (setfl fd flags w).1
    pub setfl_listens :
        (fd flags : ℕ) (w : World) → is_listening (setfl fd flags w).1 fd ≡ is_listening w fd
    pub setfl_sets :
        (fd flags : ℕ) (w : World)
        → (setfl fd flags w).0 ≡ true
        → getfl fd (setfl fd flags w).1 ≡ some flags
    pub close_closes : (fd : ℕ) (w : World) → Closes is_open fd w (close fd w)
    pub loop_opens : (w : World) → Opened is_open w (event_loop_create w).0 (event_loop_create w).1
    pub add_same :
        (loop fd events : ℕ) (w : World) → Same is_open w (event_loop_add loop fd events w)
    pub mkdtemp_same : (w : World) → Same is_open w (mkdtemp w).1
    pub unlink_same : (path : List ℕ) (w : World) → Same is_open w (unlink path w)
    pub rmdir_same : (path : List ℕ) (w : World) → Same is_open w (rmdir path w)
    pub opendir_none :
        (path : List ℕ) (w : World) → (opendir path w).0 ≡ none → Same is_open w (opendir path w).1
    pub opendir_opens :
        (path : List ℕ) (w : World) (fd : ℕ) (names : List (List ℕ))
        → (opendir path w).0 ≡ some (fd, names)
        → Opens is_open fd w (opendir path w).1
    pub closedir_closes : (fd : ℕ) (w : World) → Closes is_open fd w (closedir fd w)

  -- What a directory of plain files has in it (`none` where there is no such directory).
  pub record IsDirectory (dir : List ℕ) : Type 0 where
    pub contents : World → Option (List (List ℕ))
    pub opendir_lists :
        (w : World) (fd : ℕ) (names : List (List ℕ))
        → (opendir dir w).0 ≡ some (fd, names)
        → contents (opendir dir w).1 ≡ some (without_dots names)
    pub unlink_removes :
        (w : World) (name : List ℕ) (names : List (List ℕ))
        → contents w ≡ some (name ∷ names)
        → contents (unlink (dir ++ b'/' ∷ name) w) ≡ some names
    pub closedir_keeps : (fd : ℕ) (w : World) → contents (closedir fd w) ≡ contents w
    pub rmdir_removes : (w : World) → contents w ≡ some [] → contents (rmdir dir w) ≡ none
