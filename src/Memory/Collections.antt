-- ===== src/Memory/Collections.antt =====
-- collections.c again, with the blocks that `struct vector` and `struct dictionary` own.
use file_system_server.Base.{
  ℕ, ◌*◌, List, [], ◌∷◌, ◌++◌, Option, none, some, length, ◌==◌, if◌then◌else◌,
}
use file_system_server.Collections.Vector.{initial_capacity, growth_factor}
use file_system_server.Collections.Dictionary.{Entry, replace_value}
use file_system_server.Memory.{Act, ret, ◌>>=◌, ◌>>◌, calloc, free, realloc}

-- The address of the structure and of its array, and the pointers in `data[0..size)`.
pub record HeapVector : Type 0 where
  pub this : ℕ
  pub data_block : ℕ
  pub elements : List (Option ℕ)
  pub capacity : ℕ

abbrev pub vector_made : ℕ → Option ℕ → Act (Option HeapVector)
vector_made this none = do free (some this); ret none
vector_made this (some data_block) = ret (
    some
      (record { this = this; data_block = data_block; elements = []; capacity = initial_capacity }))

abbrev pub vector_started : Option ℕ → Act (Option HeapVector)
vector_started none = ret none
vector_started (some this) = do data_block ← calloc; vector_made this data_block

unfoldable pub vector_create_on_heap : Act (Option HeapVector)
vector_create_on_heap = do this ← calloc; vector_started this

-- `this->destructor(this->data[i])`.
unfoldable pub destroy_elements : (Option ℕ → Act (Unit {0})) → List (Option ℕ) → Act (Unit {0})
destroy_elements destructor [] = ret tt
destroy_elements destructor (e ∷ es) = do destructor e; destroy_elements destructor es

abbrev pub free_vector : HeapVector → Act (Unit {0})
free_vector v = do free (some v.data_block); free (some v.this)

unfoldable pub vector_destroy :
    Option (Option ℕ → Act (Unit {0})) → Option HeapVector → Act (Unit {0})
unfolding destroy_elements
vector_destroy destructor none = ret tt
vector_destroy none (some v) = free_vector v
vector_destroy (some destructor) (some v) = do destroy_elements destructor v.elements; free_vector v

abbrev pub vector_grown : HeapVector → Option ℕ → Option ℕ → Act HeapVector
vector_grown v element none = ret v
vector_grown v element (some next_data) = ret (record v {
  data_block = next_data;
  elements = v.elements ++ element ∷ [];
  capacity = v.capacity * growth_factor;
})

unfoldable pub vector_push_back_on_heap : HeapVector → Option ℕ → Act HeapVector
vector_push_back_on_heap v element =
    if length v.elements == v.capacity
    then (do next_data ← realloc v.data_block; vector_grown v element next_data)
    else ret (record v { elements = v.elements ++ element ∷ [] })

-- The address of the structure and of its array, and the entries below `size`.
pub record HeapDictionary (A : Type 0) : Type 0 where
  pub this : ℕ
  pub entries_block : ℕ
  pub entries : List (Entry A)
  pub capacity : ℕ

module _ {A : Type 0} where
  abbrev pub dictionary_made : ℕ → Option ℕ → Act (Option (HeapDictionary A))
  dictionary_made this none = do free (some this); ret none
  dictionary_made this (some block) = ret (
      some
        (record { this = this; entries_block = block; entries = []; capacity = initial_capacity }))

  abbrev pub dictionary_started : Option ℕ → Act (Option (HeapDictionary A))
  dictionary_started none = ret none
  dictionary_started (some this) = do block ← calloc; dictionary_made this block

  unfoldable pub dictionary_create_on_heap : Act (Option (HeapDictionary A))
  dictionary_create_on_heap = do this ← calloc; dictionary_started this

  unfoldable pub dictionary_destroy : Option (HeapDictionary A) → Act (Unit {0})
  dictionary_destroy none = ret tt
  dictionary_destroy (some d) = do free (some d.entries_block); free (some d.this)

  abbrev pub dictionary_grown : HeapDictionary A → ℕ → A → Option ℕ → Act (HeapDictionary A)
  dictionary_grown d k value none = ret d
  dictionary_grown d k value (some next_entries) = ret (record d {
    entries_block = next_entries;
    entries = d.entries ++ record { key = k; value = value } ∷ [];
    capacity = d.capacity * growth_factor;
  })

  -- The lines behind the loop, for a key that is not there.
  unfoldable pub dictionary_add_on_heap : HeapDictionary A → ℕ → A → Act (HeapDictionary A)
  dictionary_add_on_heap d k value =
      if length d.entries == d.capacity
      then (do next_entries ← realloc d.entries_block; dictionary_grown d k value next_entries)
      else ret (record d { entries = d.entries ++ record { key = k; value = value } ∷ [] })

  unfoldable pub dictionary_set_on_heap : HeapDictionary A → ℕ → A → Act (HeapDictionary A)
  unfolding dictionary_add_on_heap
  dictionary_set_on_heap d k value = elim (replace_value k value d.entries) [
    | none ↦ dictionary_add_on_heap d k value
    | some entries ↦ ret (record d { entries = entries })
  ]
