-- ===== src/EventLoop/Kqueue.antt =====
-- event_loop_kqueue.c: one filter for reading and one for writing. The calls of the kernel are a parameter.
use file_system_server.Base.{
  true-false, sym, ℕ, ◌≡◌, refl, ◌∙◌, ap, Bool, true, false, ◌||◌, List, Option, none, some, map,
  if◌then◌else◌, Bool-cases, inl, inr,
}
use file_system_server.EventLoop.Flags.{event_read, event_write, event_error, has, with_flag}

pub data Filter : Type 0 where
  evfilt_read : Filter
  evfilt_write : Filter

-- `EV_ADD | EV_ENABLE`, and `EV_DELETE`.
pub data Change : Type 0 where
  ev_add_enable : Change
  ev_delete : Change

-- What `kevent` returns for one change: 0, or -1 with `errno` ENOENT or another.
pub data KeventResult : Type 0 where
  changed : KeventResult
  enoent : KeventResult
  other_error : KeventResult

-- An entry that `kevent` filled in.
pub record KqueueEntry : Type 0 where
  pub ident : ℕ
  pub filter : Filter
  pub ev_error : Bool

pub record Kqueue : Type 1 where
  pub Loop : Type 0
  pub kevent_change : ℕ → Filter → Change → Loop → KeventResult × Loop
  pub kevent_wait : ℕ → Loop → Option (List KqueueEntry) × Loop

-- Whether the result is that of a call that did not fail.
abbrev pub update_result : Bool → KeventResult → Bool
update_result ignore_missing changed = true
update_result ignore_missing enoent = ignore_missing
update_result ignore_missing other_error = false

abbrev pub change_for : Bool → Change
change_for true = ev_add_enable
change_for false = ev_delete

abbrev pub is_evfilt_read : Filter → Bool
is_evfilt_read evfilt_read = true
is_evfilt_read evfilt_write = false

abbrev pub from_kqueue_entry : KqueueEntry → ℕ × ℕ
from_kqueue_entry e =
    let m0 = if is_evfilt_read e.filter then with_flag 0 event_read else 0 in
    let m1 = if is_evfilt_read e.filter then m0 else with_flag m0 event_write in
    (e.ident, if e.ev_error then with_flag m1 event_error else m1)

module _ (kernel : Kqueue) where
  open kernel use {Loop, kevent_change, kevent_wait}

  -- `true` is the result 0.
  unfoldable pub update_filter : ℕ → Filter → Change → Bool → Loop → Bool × Loop
  update_filter fd filter flags ignore_missing loop =
      let r = kevent_change fd filter flags loop in (update_result ignore_missing r.0, r.1)

  -- A call of `update_filter` that is made where `asked` holds.
  abbrev pub add_filter : Bool → ℕ → Filter → Loop → Bool × Loop
  unfolding update_filter
  add_filter asked fd filter loop =
      if asked then update_filter fd filter ev_add_enable false loop else (true, loop)

  unfoldable pub kqueue_event_loop_add : ℕ → ℕ → Loop → Bool × Loop
  unfolding add_filter
  kqueue_event_loop_add fd events loop =
      let r = add_filter (has events event_read) fd evfilt_read loop in
      let w = add_filter (has events event_write) fd evfilt_write r.1 in
      if r.0 then w else (false, r.1)

  unfoldable pub kqueue_event_loop_modify : ℕ → ℕ → Loop → Bool × Loop
  unfolding update_filter
  kqueue_event_loop_modify fd events loop =
      let r = update_filter fd evfilt_read (change_for (has events event_read)) true loop in
      let w = update_filter fd evfilt_write (change_for (has events event_write)) true r.1 in
      if r.0 then w else (false, r.1)

  unfoldable pub kqueue_event_loop_remove : ℕ → Loop → Bool × Loop
  unfolding update_filter
  kqueue_event_loop_remove fd loop =
      let r = update_filter fd evfilt_read ev_delete true loop in
      let w = update_filter fd evfilt_write ev_delete true r.1 in (r.0 || w.0, w.1)

  abbrev pub kqueue_reported : Option (List KqueueEntry) × Loop → Option (List (ℕ × ℕ)) × Loop
  kqueue_reported (none, loop) = (none, loop)
  kqueue_reported (some entries, loop) = (some (map from_kqueue_entry entries), loop)

  abbrev pub kqueue_event_loop_wait : ℕ → Loop → Option (List (ℕ × ℕ)) × Loop
  kqueue_event_loop_wait max_events loop = kqueue_reported (kevent_wait max_events loop)

abbrev pub same_filter : Filter → Filter → Bool
same_filter evfilt_read evfilt_read = true
same_filter evfilt_write evfilt_write = true
same_filter evfilt_read evfilt_write = false
same_filter evfilt_write evfilt_read = false

abbrev pub is_add : Change → Bool
is_add ev_add_enable = true
is_add ev_delete = false

-- What kqueue documents: a change that is accepted leaves the filter of that descriptor watched or not,
-- one that is refused changes nothing, and ENOENT is for the deletion of what is not watched.
pub record Documented (kernel : Kqueue) : Type 0 where
  pub watched : ℕ → Filter → kernel.Loop → Bool
  pub accepted :
      (fd : ℕ) (filter : Filter) (flags : Change) (loop : kernel.Loop)
      → (kernel.kevent_change fd filter flags loop).0 ≡ changed
      → watched fd filter (kernel.kevent_change fd filter flags loop).1 ≡ is_add flags
  pub missing :
      (fd : ℕ) (filter : Filter) (flags : Change) (loop : kernel.Loop)
      → (kernel.kevent_change fd filter flags loop).0 ≡ enoent
      → (is_add flags ≡ false)
        × (watched fd filter (kernel.kevent_change fd filter flags loop).1 ≡ false)
  pub others :
      (fd : ℕ) (filter filter' : Filter) (flags : Change) (loop : kernel.Loop)
      → same_filter filter filter' ≡ false
      → watched fd filter' (kernel.kevent_change fd filter flags loop).1 ≡ watched fd filter' loop

module _ (kernel : Kqueue) (doc : Documented kernel) where
  open kernel use {Loop, kevent_change}
  open doc use {watched, accepted, missing, others}

  update_filter-watched :
      (fd : ℕ) (filter : Filter) (flags : Change) (loop : Loop)
      → (update_filter kernel fd filter flags true loop).0 ≡ true
      → watched fd filter (update_filter kernel fd filter flags true loop).1 ≡ is_add flags
  unfolding update_filter
  update_filter-watched fd filter flags loop h = go (kevent_change fd filter flags loop).0 refl
    where
      go :
          (r : KeventResult)
          → (kevent_change fd filter flags loop).0 ≡ r
          → watched fd filter (update_filter kernel fd filter flags true loop).1 ≡ is_add flags
      go changed e = accepted fd filter flags loop e
      go enoent e = let (off, gone) = missing fd filter flags loop e in gone ∙ sym off
      go other_error e = absurd (true-false (sym h ∙ ap (update_result true) e))

  is_add-change_for : (b : Bool) → is_add (change_for b) ≡ b
  is_add-change_for true = refl
  is_add-change_for false = refl

  -- Where `event_loop_modify` returns 0, a descriptor is watched for reading and for writing exactly as the
  -- flags say, whatever was watched before.
  pub kqueue_event_loop_modify_lem :
      (fd events : ℕ) (loop : Loop)
      → (kqueue_event_loop_modify kernel fd events loop).0 ≡ true
      → let loop' = (kqueue_event_loop_modify kernel fd events loop).1 in
        (watched fd evfilt_read loop' ≡ has events event_read)
        × (watched fd evfilt_write loop' ≡ has events event_write)
  unfolding kqueue_event_loop_modify update_filter
  kqueue_event_loop_modify_lem fd events loop h =
      let r_flags : Change = change_for (has events event_read) in
      let w_flags : Change = change_for (has events event_write) in
      let r : Bool × Loop = update_filter kernel fd evfilt_read r_flags true loop in
      let w : Bool × Loop = update_filter kernel fd evfilt_write w_flags true r.1 in
      elim (Bool-cases r.0) [
        | inl read ↦
            let written : w.0 ≡ true = (rw read at h) in
            rw read (
              others fd evfilt_write evfilt_read w_flags r.1 refl
                  ∙ update_filter-watched fd evfilt_read r_flags loop read
                  ∙ is_add-change_for (has events event_read),
              update_filter-watched fd evfilt_write w_flags r.1 written
                  ∙ is_add-change_for (has events event_write),
            )
        | inr refused ↦
            absurd (true-false (sym h ∙ ap (λ b. (if b then w else (false, r.1)).0) refused))
      ]
