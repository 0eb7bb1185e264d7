-- ===== src/Collections/Dictionary.antt =====
-- collections.c, `struct dictionary`: an unsorted array of entries with `int` keys that doubles.
-- `entries` are the slots below `size`; no operation reads a slot at or past it.
pub mod Laws
use file_system_server.Base.{
  ℕ, ◌*◌, Bool, List, [], ◌∷◌, ◌++◌, Option, none, some, length, ◌==◌, if◌then◌else◌,
}
use file_system_server.Collections.Vector.{initial_capacity, growth_factor}

pub record Entry {ℓ} (A : Type ℓ) : Type ℓ where
  pub key : ℕ
  pub value : A

pub record Dictionary {ℓ} (A : Type ℓ) : Type ℓ where
  pub entries : List (Entry A)
  pub capacity : ℕ

module _ {ℓ} {A : Type ℓ} where
  unfoldable pub dictionary_create : Dictionary A
  dictionary_create = record { entries = []; capacity = initial_capacity }

  unfoldable pub find_value : ℕ → List (Entry A) → Option A
  find_value k [] = none
  find_value k (e ∷ es) = if e.key == k then some e.value else find_value k es

  -- The first loop of `dictionary_set`: `none` where no entry has the key.
  unfoldable pub replace_value : ℕ → A → List (Entry A) → Option (List (Entry A))
  replace_value k v [] = none
  replace_value k v (e ∷ es) =
      if e.key == k
      then some (record e { value = v } ∷ es)
      else elim (replace_value k v es) [ none ↦ none | some es' ↦ some (e ∷ es') ]

  unfoldable pub append_entry : Bool → Dictionary A → ℕ → A → Dictionary A
  append_entry room d k v =
      if length d.entries == d.capacity
      then (if room
          then record {
            entries = d.entries ++ record { key = k; value = v } ∷ [];
            capacity = d.capacity * growth_factor;
          }
          else d)
      else record d { entries = d.entries ++ record { key = k; value = v } ∷ [] }

  unfoldable pub dictionary_set : Bool → Dictionary A → ℕ → A → Dictionary A
  dictionary_set room d k v = elim (replace_value k v d.entries) [
    | none ↦ append_entry room d k v
    | some es ↦ record d { entries = es }
  ]

  unfoldable pub dictionary_get : Dictionary A → ℕ → Option A
  dictionary_get d k = find_value k d.entries

  -- The loop of `dictionary_remove`: the first entry with the key goes, the later ones move down.
  unfoldable pub remove_entry : ℕ → List (Entry A) → List (Entry A)
  remove_entry k [] = []
  remove_entry k (e ∷ es) = if e.key == k then es else e ∷ remove_entry k es

  unfoldable pub dictionary_remove : Dictionary A → ℕ → Dictionary A
  dictionary_remove d k = record d { entries = remove_entry k d.entries }
