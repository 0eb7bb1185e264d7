-- ===== src/Tests/Store.antt =====
-- Runs of the collections and of the list of names.
use file_system_server.Base.{
  ℕ, ◌≡◌, refl, true, false, List, [], ◌∷◌, ◌++◌, none, some, arith, inr, take, drop, if◌then◌else◌,
  ◌==◌, to_bytes, replicate, ◌+◌, length,
}
use file_system_server.Collections.Vector.{Vector, vector_push_back, vector_erase}
use file_system_server.Collections.Vector.Laws.{Holds, vector_push_back-Holds, vector_erase-Holds}
use file_system_server.Collections.Dictionary.{
  Dictionary, dictionary_get, dictionary_set, dictionary_remove,
}
use file_system_server.Collections.Dictionary.Laws.{
  IsDictionary, dictionary_get-set, dictionary_get-remove,
}
use file_system_server.Server.{size_len}
use file_system_server.Server.Names.{add_file_to_list, remove_file_from_list}
use file_system_server.Server.Names.Laws.{
  Stores, inserted, removed, IsIn, NotIn, add_file_to_list-Stores, remove_file_from_list-Stores,
}
use file_system_server.Server.Listing.{build_list_buffer}
use file_system_server.Server.Listing.Contents.{joined, build_list_buffer_lem}

abbrev one : Vector ℕ
one = record { cells = some 7 ∷ replicate 7 none; size = 1; capacity = 8 }

one-Holds : Holds one (7 ∷ [])
one-Holds = record { live = refl; space = refl; fits = omega arith; positive = omega arith }

vector_push_back-Holds_example : Holds (vector_push_back false one 8) ((7 ∷ []) ++ 8 ∷ [])
vector_push_back-Holds_example = vector_push_back-Holds false 8 one-Holds (inr (omega arith))

vector_erase-Holds_example : Holds (vector_erase one 0) (take 0 (7 ∷ []) ++ drop 1 (7 ∷ []))
vector_erase-Holds_example = vector_erase-Holds 0 one-Holds (omega arith)

abbrev two_keys : Dictionary ℕ
two_keys = record {
  entries = record { key = 4; value = 40 } ∷ record { key = 5; value = 50 } ∷ [];
  capacity = 8;
}

two_keys-IsDictionary : IsDictionary two_keys
two_keys-IsDictionary = record {
  fits = omega arith;
  positive = omega arith;
  distinct = ground arith;
}

dictionary_get-set_test :
    dictionary_get (dictionary_set true two_keys 4 41) 4
    ≡ (if 4 == 4 then some 41 else dictionary_get two_keys 4)
dictionary_get-set_test = dictionary_get-set two_keys 4 4 41

dictionary_get-remove_example :
    dictionary_get (dictionary_remove two_keys 4) 4
    ≡ (if 4 == 4 then none else dictionary_get two_keys 4)
dictionary_get-remove_example = dictionary_get-remove two_keys 4 4 two_keys-IsDictionary

abbrev names : Vector (List ℕ)
names = record { cells = some (97 ∷ []) ∷ replicate 7 none; size = 1; capacity = 8 }

names-Holds : Holds names ((97 ∷ []) ∷ [])
names-Holds = record { live = refl; space = refl; fits = omega arith; positive = omega arith }

names-Stores : Stores names ((97 ∷ []) ∷ [])
names-Stores = record { holds = names-Holds; once = (tt, tt) }

add_file_to_list-Stores_example :
    Stores (add_file_to_list true names (98 ∷ [])) (inserted (98 ∷ []) ((97 ∷ []) ∷ []))
    × IsIn (98 ∷ []) (inserted (98 ∷ []) ((97 ∷ []) ∷ []))
add_file_to_list-Stores_example = add_file_to_list-Stores names (98 ∷ []) names-Stores

remove_file_from_list-Stores_example :
    Stores (remove_file_from_list names (97 ∷ [])) (removed (97 ∷ []) ((97 ∷ []) ∷ []))
    × NotIn (97 ∷ []) (removed (97 ∷ []) ((97 ∷ []) ∷ []))
remove_file_from_list-Stores_example = remove_file_from_list-Stores names (97 ∷ []) names-Stores

build_list_buffer_example :
    build_list_buffer true names
    ≡ some (
      to_bytes size_len (length (joined ((97 ∷ []) ∷ []))) ++ joined ((97 ∷ []) ∷ []),
      size_len + length (joined ((97 ∷ []) ∷ [])),
    )
build_list_buffer_example = build_list_buffer_lem names ((97 ∷ []) ∷ []) names-Holds
