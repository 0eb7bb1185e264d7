-- ===== src/Server/Setup/Directory.antt =====
-- The temporary directory: what `cleanup_temp_directory` leaves of it.
use file_system_server.Base.{
  ℕ, ◌≡◌, refl, subst, ap, ◌∙◌, ◌≤◌, inl, inr, List, [], ◌∷◌, ◌++◌, Option, none, some, Bool-cases,
  length, take, take_all, if◌then◌else◌,
}
use file_system_server.Os.Kernel.{Kernel, IsKernel, IsDirectory, Same, Opens, is_dots, without_dots}
use file_system_server.Os.Descriptors.{Same-then, Opens-Same, Opens-Closes}
use file_system_server.Server.Setup.{unlink_entries, emptied, cleanup_temp_directory}

-- The paths of the files fit the buffer of `cleanup_temp_directory`.
abbrev pub Fit : List ℕ → List (List ℕ) → Type 0
Fit dir [] = Unit
Fit dir (name ∷ names) = (length (dir ++ b'/' ∷ name) ≤ 1023) × Fit dir names

module _ (k : Kernel) where
  open k use {World, opendir, closedir, unlink, rmdir}

  module _ (h : IsKernel k) where
    open h use {is_open, unlink_same, rmdir_same, opendir_none, opendir_opens, closedir_closes}

    unlink_entries-Same :
        (dir : List ℕ) (names : List (List ℕ)) (w : World)
        → Same is_open w (unlink_entries k dir names w)
    unfolding unlink_entries
    unlink_entries-Same dir [] w = λ j. refl
    unlink_entries-Same dir (name ∷ names) w = elim (Bool-cases (is_dots name)) [
      | inl e ↦ rw (unlink_entries, e) (unlink_entries-Same dir names w)
      | inr e ↦
          rw (unlink_entries, e)
            (Same-then is_open w _ _ (unlink_same (take 1023 (dir ++ b'/' ∷ name)) w)
              (unlink_entries-Same dir names _))
    ]

    emptied-Same :
        (dir : List ℕ) (w w1 : World) (r : Option (ℕ × List (List ℕ)))
        → (opendir dir w).0 ≡ r
        → (opendir dir w).1 ≡ w1
        → Same is_open w (emptied k dir (r, w1))
    emptied-Same dir w w1 none e f = subst (Same is_open w) f (opendir_none dir w e)
    emptied-Same dir w w1 (some (d, names)) e f =
        let w2 = unlink_entries k dir names w1 in
        Opens-Closes is_open d w w2 (closedir d w2)
          (Opens-Same is_open d w w1 w2
            (subst (Opens is_open d w) f (opendir_opens dir w d names e))
            (unlink_entries-Same dir names w1))
          (closedir_closes d w2)

    -- Emptying the directory leaves no descriptor.
    pub cleanup_temp_directory-Same :
        (temp_dir : Option (List ℕ)) (w : World)
        → Same is_open w (cleanup_temp_directory k temp_dir w)
    unfolding cleanup_temp_directory
    cleanup_temp_directory-Same none w = λ j. refl
    cleanup_temp_directory-Same (some dir) w =
        Same-then is_open w (emptied k dir (opendir dir w)) _ (emptied-Same dir w _ _ refl refl)
          (rmdir_same dir _)

  module _ (dir : List ℕ) (h : IsDirectory k dir) where
    open h use {contents, opendir_lists, unlink_removes, closedir_keeps, rmdir_removes}

    unlink_entries-contents :
        (names : List (List ℕ)) (w : World)
        → Fit dir (without_dots names)
        → contents w ≡ some (without_dots names)
        → contents (unlink_entries k dir names w) ≡ some []
    unfolding unlink_entries
    unlink_entries-contents [] w f e = e
    unlink_entries-contents (name ∷ names) w f e = elim (Bool-cases (is_dots name)) [
      | inl b ↦
          let here = ap (λ z. if z then without_dots names else name ∷ without_dots names) b in
          rw (unlink_entries, b)
            (unlink_entries-contents names w (subst (Fit dir) here f)
              (subst (λ z. contents w ≡ some z) here e))
      | inr b ↦
          let here = ap (λ z. if z then without_dots names else name ∷ without_dots names) b in
          let f' : Fit dir (name ∷ without_dots names) = subst (Fit dir) here f in
          rw (unlink_entries, b, take_all 1023 (dir ++ b'/' ∷ name) f'.0)
            (unlink_entries-contents names (unlink (dir ++ b'/' ∷ name) w) f'.1 (
              unlink_removes w name (without_dots names) (subst (λ z. contents w ≡ some z) here e)))
    ]

    -- Where the temporary directory holds plain files, its names can be listed, and each path is
    -- shorter than the buffer for it: afterwards there is no such directory, whatever the order of
    -- the names and wherever `.` and `..` are among them.
    pub cleanup_temp_directory-contents :
        (d : ℕ) (names : List (List ℕ)) (w : World)
        → (opendir dir w).0 ≡ some (d, names)
        → Fit dir (without_dots names)
        → contents (cleanup_temp_directory k (some dir) w) ≡ none
    unfolding cleanup_temp_directory
    cleanup_temp_directory-contents d names w e f =
        let w1 = (opendir dir w).1 in
        rw (cleanup_temp_directory, e)
          (rmdir_removes _ (
            closedir_keeps d (unlink_entries k dir names w1)
            ∙ unlink_entries-contents names w1 f (opendir_lists w d names e)))
