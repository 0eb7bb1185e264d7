-- ===== src/Tests/Kernels.antt =====
-- A kernel with few descriptors and one temporary directory.
use file_system_server.Base.{
  none-some, some_eq, ℕ, ◌≡◌, refl, sym, subst, ap, ◌∙◌, Bool, true, false, List, [], ◌∷◌, ◌++◌,
  Option, none, some, arith, ◌==◌, if◌then◌else◌, codes, str_eq, str_eq_refl,
}
use file_system_server.Os.Kernel.{Kernel, IsKernel, IsDirectory, Same, Opens, Opened, without_dots}
use file_system_server.Server.Setup.{create_and_bind_socket, cleanup_temp_directory, set_up}
use file_system_server.Server.Setup.Sockets.{Bound, create_and_bind_socket-Bound}
use file_system_server.Server.Setup.Directory.{cleanup_temp_directory-contents}
use file_system_server.Server.Setup.Main.{Prepared, set_up-Prepared}
use file_system_server.Client.Connect.{connect_to_server, connect_to_server-Opened}

-- Which descriptors are open, the flags of the last socket, and the files of the directory `t`.
pub record World : Type 0 where
  pub opened : ℕ → Bool
  pub flags : ℕ
  pub files : Option (List ℕ)

abbrev pub with_fd : Bool → ℕ → World → World
with_fd b fd w = record w { opened = λ j. if fd == j then b else w.opened j }

-- The first of the descriptors 3 and 4 that is not open.
abbrev fresh_after : Bool → Bool → World → Option ℕ × World
fresh_after false b w = (some 3, with_fd true 3 w)
fresh_after true false w = (some 4, with_fd true 4 w)
fresh_after true true w = (none, w)

abbrev fresh : World → Option ℕ × World
fresh w = fresh_after (w.opened 3) (w.opened 4) w

abbrev name : ℕ → List ℕ
name n = b'x' ∷ n ∷ []

abbrev names : List ℕ → List (List ℕ)
names [] = []
names (n ∷ ns) = name n ∷ names ns

abbrev pub dir : List ℕ
dir = b't' ∷ []

abbrev names_of : Option (List ℕ) → Option (List (List ℕ))
names_of none = none
names_of (some ns) = some (names ns)

abbrev list_after : Bool → Option (List ℕ) → World → Option (ℕ × List (List ℕ)) × World
list_after false (some ns) w = (some (9, codes "." ∷ names ns), with_fd true 9 w)
list_after false none w = (none, w)
list_after true files w = (none, w)

abbrev without_file : List ℕ → List ℕ → List ℕ
without_file path [] = []
without_file path (n ∷ ns) =
    if str_eq path (dir ++ b'/' ∷ name n) then ns else n ∷ without_file path ns

abbrev unlinked_in : List ℕ → Option (List ℕ) → Option (List ℕ)
unlinked_in path none = none
unlinked_in path (some ns) = some (without_file path ns)

abbrev dir_removed : Option (List ℕ) → Option (List ℕ)
dir_removed (some []) = none
dir_removed files = files

abbrev pub small : Kernel
small = record {
  World = World;
  Address = ℕ;
  getaddrinfo = λ host port w. some (1, 2 ∷ []);
  socket = λ a w. fresh w;
  reuse = λ fd w. w;
  bind = λ fd a w. (a == 2, w);
  connect = λ fd a w. (a == 1, w);
  listen = λ fd w. (true, w);
  getfl = λ fd w. some w.flags;
  setfl = λ fd flags w. (true, record w { flags = flags });
  nonblock = λ flags. 2048;
  close = λ fd w. with_fd false fd w;
  mkdtemp = λ w. (some dir, record w { files = some [] });
  opendir = λ path w. list_after (w.opened 9) w.files w;
  closedir = λ fd w. with_fd false fd w;
  unlink = λ path w. record w { files = unlinked_in path w.files };
  rmdir = λ path w. record w { files = dir_removed w.files };
  event_loop_create = fresh;
  event_loop_add = λ loop fd events w. w;
}

pub fresh-Opened :
    (a b : Bool) (w : World)
    → w.opened 3 ≡ a
    → w.opened 4 ≡ b
    → Opened (λ z. z.opened) w (fresh_after a b w).0 (fresh_after a b w).1
fresh-Opened false b w e f = (e, λ j. refl)
fresh-Opened true false w e f = (f, λ j. refl)
fresh-Opened true true w e f = λ j. refl

pub list_after-none :
    (b : Bool) (f : Option (List ℕ)) (w : World)
    → (list_after b f w).0 ≡ none
    → Same (λ z. z.opened) w (list_after b f w).1
list_after-none false none w e = λ j. refl
list_after-none false (some ns) w e = absurd (none-some (sym e))
list_after-none true f w e = λ j. refl

pub list_after-Opens :
    (b : Bool) (f : Option (List ℕ)) (w : World) (fd : ℕ) (ns : List (List ℕ))
    → w.opened 9 ≡ b
    → (list_after b f w).0 ≡ some (fd, ns)
    → Opens (λ z. z.opened) fd w (list_after b f w).1
list_after-Opens false none w fd ns o e = absurd (none-some e)
list_after-Opens true f w fd ns o e = absurd (none-some e)
list_after-Opens false (some ms) w fd ns o e =
    subst (λ z. Opens (λ z. z.opened) z w (with_fd true 9 w)) (ap (λ z. z.0) (some_eq e))
      (o, λ j. refl)

abbrev pub small-IsKernel : IsKernel small
small-IsKernel = record {
  is_open = λ w. w.opened;
  is_listening = λ w fd. true;
  socket_opens = λ a w. fresh-Opened (w.opened 3) (w.opened 4) w refl refl;
  reuse_same = λ fd w j. refl;
  bind_same = λ fd a w j. refl;
  connect_same = λ fd a w j. refl;
  listen_same = λ fd w j. refl;
  listen_listens = λ fd w e. refl;
  setfl_same = λ fd flags w j. refl;
  setfl_listens = λ fd flags w. refl;
  setfl_sets = λ fd flags w e. refl;
  close_closes = λ fd w j. refl;
  loop_opens = λ w. fresh-Opened (w.opened 3) (w.opened 4) w refl refl;
  add_same = λ loop fd events w j. refl;
  mkdtemp_same = λ w j. refl;
  unlink_same = λ path w j. refl;
  rmdir_same = λ path w j. refl;
  opendir_none = λ path w e. list_after-none (w.opened 9) w.files w e;
  opendir_opens = λ path w fd ns e. list_after-Opens (w.opened 9) w.files w fd ns refl e;
  closedir_closes = λ fd w j. refl;
}

names-plain : (ns : List ℕ) → without_dots (names ns) ≡ names ns
unfolding str_eq
names-plain [] = refl
names-plain (n ∷ ns) = ap (λ z. name n ∷ z) (names-plain ns)

list_after-contents :
    (b : Bool) (f : Option (List ℕ)) (w : World) (fd : ℕ) (ns : List (List ℕ))
    → w.files ≡ f
    → (list_after b f w).0 ≡ some (fd, ns)
    → names_of (list_after b f w).1.files ≡ some (without_dots ns)
unfolding str_eq
list_after-contents false none w fd ns g e = absurd (none-some e)
list_after-contents true f w fd ns g e = absurd (none-some e)
list_after-contents false (some ms) w fd ns g e =
    ap names_of g ∙ ap some (sym (names-plain ms) ∙ ap (λ z. without_dots z.1) (some_eq e))

removed_first :
    (f : Option (List ℕ)) (nm : List ℕ) (ns : List (List ℕ))
    → names_of f ≡ some (nm ∷ ns)
    → names_of (unlinked_in (dir ++ b'/' ∷ nm) f) ≡ some ns
removed_first none nm ns e = absurd (none-some e)
removed_first (some []) nm ns e = ground arith
removed_first (some (m ∷ ms)) nm ns e =
    let first : nm ≡ name m = cc in
    let rest : names ms ≡ ns = cc in rw (first, str_eq_refl (dir ++ b'/' ∷ name m)) (ap some rest)

rmdir_first : (f : Option (List ℕ)) → names_of f ≡ some [] → names_of (dir_removed f) ≡ none
rmdir_first none e = refl
rmdir_first (some []) e = refl
rmdir_first (some (m ∷ ms)) e = ground arith

abbrev small-IsDirectory : IsDirectory small dir
small-IsDirectory = record {
  contents = λ w. names_of w.files;
  opendir_lists = λ w fd ns e. list_after-contents (w.opened 9) w.files w fd ns refl e;
  unlink_removes = λ w nm ns e. removed_first w.files nm ns e;
  closedir_keeps = λ fd w. refl;
  rmdir_removes = λ w e. rmdir_first w.files e;
}

abbrev pub booted : World
booted = record { opened = λ j. false; flags = 2; files = some (1 ∷ 2 ∷ []) }

create_and_bind_socket-Bound_test :
    Bound small small-IsKernel booted
      (create_and_bind_socket small (b'1' ∷ []) booted).0
      (create_and_bind_socket small (b'1' ∷ []) booted).1
create_and_bind_socket-Bound_test =
    create_and_bind_socket-Bound small small-IsKernel (b'1' ∷ []) booted

connect_to_server-Opened_example :
    Opened
      (λ w. w.opened)
      booted
      (connect_to_server small [] (b'1' ∷ []) booted).0
      (connect_to_server small [] (b'1' ∷ []) booted).1
connect_to_server-Opened_example =
    connect_to_server-Opened small small-IsKernel [] (b'1' ∷ []) booted

set_up-Prepared_example :
    Prepared small small-IsKernel booted (set_up small true true ([] ∷ (b'1' ∷ []) ∷ []) booted)
set_up-Prepared_example =
    set_up-Prepared small small-IsKernel true true ([] ∷ (b'1' ∷ []) ∷ []) booted

cleanup_temp_directory-contents_example :
    names_of (cleanup_temp_directory small (some dir) booted).files ≡ none
unfolding str_eq
cleanup_temp_directory-contents_example =
    cleanup_temp_directory-contents small dir small-IsDirectory 9 (codes "." ∷ names (1 ∷ 2 ∷ []))
      booted refl (omega arith, (omega arith, tt))
