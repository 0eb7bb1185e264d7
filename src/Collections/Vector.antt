-- ===== src/Collections/Vector.antt =====
-- collections.c, `struct vector`: an array that doubles. `realloc` may fail, as `room` says. The
-- destructor is the null pointer at the one call of `vector_create`, and is left out.
pub mod Laws
use file_system_server.Base.{
  ℕ, suc, ◌+◌, ◌-◌, ◌*◌, Bool, List, [], ◌∷◌, ◌++◌, Option, none, some, length, get_elem?, set,
  take, drop, replicate, leb, ltb, ◌==◌, if◌then◌else◌, not,
}

abbrev pub initial_capacity : ℕ
initial_capacity = 8

abbrev pub growth_factor : ℕ
growth_factor = 2

-- `cells` is `data[0..capacity)`, and `none` the null pointer.
pub record Vector {ℓ} (A : Type ℓ) : Type ℓ where
  pub cells : List (Option A)
  pub size : ℕ
  pub capacity : ℕ

-- What a read of the array gives; a read past its end does not happen.
abbrev pub read_cell {ℓ} : {A : Type ℓ} → Option (Option A) → Option A
read_cell none = none
read_cell (some c) = c

-- `realloc`: the old cells, and new ones.
abbrev pub grown {ℓ} : {A : Type ℓ} → Vector A → Vector A
grown v = record {
  cells = v.cells ++ replicate (v.capacity * growth_factor - v.capacity) none;
  size = v.size;
  capacity = v.capacity * growth_factor;
}

-- `data[size++] = element`.
abbrev pub append_cell {ℓ} : {A : Type ℓ} → Vector A → A → Vector A
append_cell v x = record v { cells = set v.cells v.size (some x); size = v.size + 1 }

-- `memmove(&data[position], &data[position + 1], (size - position - 1) * sizeof(void *))`.
abbrev pub close_gap {ℓ} : {A : Type ℓ} → Vector A → ℕ → List (Option A)
close_gap v position =
    if ltb (position + 1) v.size
    then take position v.cells
      ++ (take (v.size - position - 1) (drop (position + 1) v.cells) ++ drop (v.size - 1) v.cells)
    else v.cells

module _ {ℓ} {A : Type ℓ} where
  unfoldable pub vector_create : Vector A
  vector_create = record {
    cells = replicate initial_capacity none;
    size = 0;
    capacity = initial_capacity;
  }

  unfoldable pub vector_size : Vector A → ℕ
  vector_size v = v.size

  unfoldable pub vector_get : Vector A → ℕ → Option A
  vector_get v n = if leb v.size n then none else read_cell (get_elem? v.cells n)

  unfoldable pub vector_push_back : Bool → Vector A → A → Vector A
  vector_push_back room v element =
      if v.size == v.capacity
      then (if room then append_cell (grown v) element else v)
      else append_cell v element

  unfoldable pub vector_erase : Vector A → ℕ → Vector A
  vector_erase v position =
      if leb v.size position
      then v
      else record v { cells = close_gap v position; size = v.size - 1 }
