-- ===== src/Server/Listing.antt =====
-- server.c, `build_list_buffer`.
pub mod Contents
use file_system_server.Base.{
  ℕ, zero, suc, ◌+◌, ◌-◌, Bool, true, false, List, [], ◌∷◌, Option, none, some, length, replicate,
  set_range, newline, to_bytes, ltb, if◌then◌else◌,
}
use file_system_server.Collections.Vector.{Vector, vector_size, vector_get}
use file_system_server.Server.State.{size_len}
use file_system_server.Server.Names.{or_empty}

-- The first loop: the bytes of the names and of the newlines between them.
unfoldable pub total_data_size : ℕ → ℕ → ℕ → Vector (List ℕ) → ℕ
total_data_size zero i count v = 0
total_data_size (suc rounds) i count v =
    length (or_empty (vector_get v i))
    + (if ltb i (count - 1) then 1 else 0)
    + total_data_size rounds (i + 1) count v

-- The second loop: it copies each name, and a newline behind all but the last, to `offset`.
unfoldable pub fill_list : ℕ → ℕ → ℕ → Vector (List ℕ) → List ℕ → ℕ → List ℕ
fill_list zero i count v buffer offset = buffer
fill_list (suc rounds) i count v buffer offset =
    let name = or_empty (vector_get v i) in
    let copied = set_range buffer offset name in
    let end = offset + length name in
    fill_list rounds (i + 1) count v
      (if ltb i (count - 1) then set_range copied end (newline ∷ []) else copied)
      (if ltb i (count - 1) then end + 1 else end)

-- The buffer with its length; `none` where `calloc` fails.
unfoldable pub build_list_buffer : Bool → Vector (List ℕ) → Option (List ℕ × ℕ)
build_list_buffer memory v =
    let count = vector_size v in
    let total = total_data_size count 0 count v in
    if memory
    then some (
      fill_list count 0 count v
          (set_range (replicate (size_len + total) 0) 0 (to_bytes size_len total)) size_len,
      size_len + total,
    )
    else none
