-- ===== src/Server/Invariant.antt =====
-- server.c: what holds of a connection between two events, and what its handlers leave alone.
pub mod Responses
pub mod Uploads
pub mod Downloads
pub mod Requests
pub mod Events
pub mod Polling
use file_system_server.Base.{
  ℕ, ◌≤◌, ◌<◌, ◌≡◌, refl, sym, subst, ap, ◌∙◌, ◌⊎◌, Bool, true, false, List, Option, some, length,
  if◌then◌else◌,
}
use file_system_server.EventLoop.{event_read, event_write}
use file_system_server.Os.{FileSystem}
use file_system_server.Collections.Vector.{Vector}
use file_system_server.Collections.Dictionary.{dictionary_remove}
use file_system_server.Server.State.{
  ConnState, recv_header, recv_put_size, recv_put_data, send_ok, send_error, send_get_size,
  send_get_data, send_list_data, done, Client, Machine, close_and_cleanup, max_header_len,
}
use file_system_server.Server.Names.Laws.{Stores}
use file_system_server.Server.Response.{finish}

-- The events that the loop watches on a live connection, by its state. A response may wait under
-- either; a connection that is done is freed.
abbrev pub Watches : Bool → ConnState → Option ℕ → Type 0
Watches true st i = Unit
Watches false recv_header i = i ≡ some event_read
Watches false recv_put_size i = i ≡ some event_read
Watches false recv_put_data i = i ≡ some event_read
Watches false send_ok i = (i ≡ some event_read) ⊎ (i ≡ some event_write)
Watches false send_error i = (i ≡ some event_read) ⊎ (i ≡ some event_write)
Watches false send_get_size i = i ≡ some event_write
Watches false send_get_data i = i ≡ some event_write
Watches false send_list_data i = i ≡ some event_write
Watches false done i = ⊥

abbrev pub IsWatched : {Disk : Type 0} → Machine Disk → Type 0
IsWatched m = Watches m.freed m.client.state m.interest

-- The list of names holds some names, each once.
pub data IsListed (v : Vector (List ℕ)) : Type 0 where
  listed : (xs : List (List ℕ)) → Stores v xs → IsListed v

-- The buffers of `client_t` hold what they have room for, a zero byte behind it included.
abbrev pub InBounds : Client → Type 0
InBounds c =
    (length c.header_buf < max_header_len)
    × (length c.filename < 256)
    × (length c.simple_response_buf < max_header_len)

-- With memory, the list and the buffers are as they should be.
abbrev pub IsSound : {Disk : Type 0} → Machine Disk → Type 0
IsSound m = (m.memory ≡ true) × IsListed m.server_files × InBounds m.client

-- A handler that began with `m0` has come to `m`, and the connection is alive.
abbrev pub Going : {Disk : Type 0} → Machine Disk → Machine Disk → Type 0
Going m0 m =
    (m.fd_to_client ≡ m0.fd_to_client)
    × (m.client.fd ≡ m0.client.fd)
    × (m.temp_dir ≡ m0.temp_dir)
    × (IsSound m0 → IsSound m)

-- What has become of it: a connection that is freed is out of the table.
abbrev pub Kept : {Disk : Type 0} → Bool → Machine Disk → Machine Disk → Type 0
Kept false m0 m = Going m0 m
Kept true m0 m =
    (m.fd_to_client ≡ dictionary_remove m0.fd_to_client m0.client.fd)
    × (m.temp_dir ≡ m0.temp_dir)
    × (IsSound m0 → IsSound m)

abbrev pub Served : {Disk : Type 0} → Machine Disk → Machine Disk → Type 0
Served m0 m = IsWatched m × Kept m.freed m0 m

abbrev pub IsLive : {Disk : Type 0} → Machine Disk → Machine Disk → Type 0
IsLive m0 m =
    (m.freed ≡ false)
    × ((m.interest ≡ some event_read) ⊎ (m.interest ≡ some event_write))
    × Going m0 m

module _ (fs : FileSystem) (m0 : Machine fs.Disk) where
  open fs use {Disk}

  -- A change of the client that keeps its descriptor, if its buffers still hold what they should.
  pub Going-client :
      (m : Machine Disk) (c : Client)
      → Going m0 m
      → c.fd ≡ m.client.fd
      → (InBounds m.client → InBounds c)
      → Going m0 (record m { client = c })
  Going-client m c (table, same, dir, sound) e bounds =
      (table, e ∙ same, dir, λ s. let (memory, names, b) = sound s in (memory, names, bounds b))

  -- A change of the list of names.
  pub Going-files :
      (m : Machine Disk) (v : Vector (List ℕ))
      → Going m0 m
      → (m.memory ≡ true → IsListed m.server_files → IsListed v)
      → Going m0 (record m { server_files = v })
  Going-files m v (table, same, dir, sound) keep =
      (table, same, dir, λ s. let (memory, names, b) = sound s in (memory, keep memory names, b))

  pub live-Served : (m : Machine Disk) → m.freed ≡ false → IsWatched m → Going m0 m → Served m0 m
  live-Served m f w g = (w, subst (λ b. Kept b m0 m) (sym f) g)

  pub either-Served :
      (b : Bool) (x y : Machine Disk) → Served m0 x → Served m0 y → Served m0 (if b then x else y)
  either-Served true x y h k = h
  either-Served false x y h k = k

  pub closed-Served : (m : Machine Disk) → Going m0 m → Served m0 (close_and_cleanup fs m)
  unfolding close_and_cleanup
  closed-Served m (table, same, dir, sound) = (
    tt,
    (
      ap (λ t. dictionary_remove t m.client.fd) table
          ∙ ap (λ k. dictionary_remove m0.fd_to_client k) same,
      dir,
      sound,
    ),
  )

  pub finish-Served : (m : Machine Disk) → Going m0 m → Served m0 (finish fs m)
  unfolding finish
  finish-Served m g = closed-Served _ g
