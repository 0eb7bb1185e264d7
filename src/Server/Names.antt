-- ===== src/Server/Names.antt =====
-- server.c, the list of stored file names.
pub mod Laws
use file_system_server.Base.{
  ℕ, zero, suc, ◌+◌, ◌-◌, Bool, List, [], Option, none, some, length, str_eq, if◌then◌else◌,
}
use file_system_server.Collections.Vector.{
  Vector, vector_size, vector_get, vector_push_back, vector_erase,
}

-- The string at an index; the pointer is never null below the size.
abbrev pub or_empty : Option (List ℕ) → List ℕ
or_empty none = []
or_empty (some s) = s

-- `for (i...) if (strcmp(vector_get(server_files, i), name) == 0)`, with the rounds left.
unfoldable pub find_name : ℕ → ℕ → Vector (List ℕ) → List ℕ → Option ℕ
find_name zero i v name = none
find_name (suc rounds) i v name =
    let rest = find_name rounds (i + 1) v name in
    if str_eq (or_empty (vector_get v i)) name then some i else rest

unfoldable pub index_of : Vector (List ℕ) → List ℕ → Option ℕ
unfolding find_name
index_of v name = find_name (vector_size v) 0 v name

unfoldable pub add_file_to_list : Bool → Vector (List ℕ) → List ℕ → Vector (List ℕ)
add_file_to_list memory v name = elim (index_of v name) [
  | some i ↦ v
  | none ↦ vector_push_back memory v name
]

unfoldable pub remove_file_from_list : Vector (List ℕ) → List ℕ → Vector (List ℕ)
remove_file_from_list v name = elim (index_of v name) [ none ↦ v | some i ↦ vector_erase v i ]
