-- ===== src/Tests/Memory.antt =====
-- The memory of a server that accepts a connection, makes a list for it, and stops.
use file_system_server.Base.{◌≡◌, refl, true, false, [], ◌∷◌, none, some, arith}
use file_system_server.Collections.Dictionary.{find_value, replace_value}
use file_system_server.Memory.{Heap, count, allocate, calloc}
use file_system_server.Memory.Laws.{IsHeap, IsAmple}
use file_system_server.Memory.Collections.{
  HeapVector, HeapDictionary, vector_create_on_heap, dictionary_create_on_heap,
  dictionary_set_on_heap,
}
use file_system_server.Memory.Server.{
  Connection, Globals, client_create_on_heap, connect, cleanup_memory,
}
use file_system_server.Memory.Life.{Keeps}
use file_system_server.Memory.Life.Whole.{
  Lives, set_up_done, operated, accepts_one, Operation-Keeps, cleanup_memory-leaves,
}

abbrev new_heap : Heap
new_heap = record { blocks = []; next = 0; answers = [] }

new_heap-IsAmple : IsAmple new_heap []
unfolding count
new_heap-IsAmple =
    (record { exact = λ p. refl; once = λ p. omega arith; fresh = λ p le. refl }, refl)

abbrev new_files : HeapVector
new_files = record { this = 0; data_block = 1; elements = []; capacity = 8 }

abbrev new_clients : HeapDictionary Connection
new_clients = record { this = 2; entries_block = 3; entries = []; capacity = 8 }

abbrev four_blocks : Heap
four_blocks = record { blocks = 3 ∷ 2 ∷ 1 ∷ 0 ∷ []; next = 4; answers = [] }

abbrev new_globals : Globals
new_globals = record { server_files = new_files; fd_to_client = new_clients }

new_globals-Lives : Lives new_heap new_globals four_blocks
unfolding vector_create_on_heap dictionary_create_on_heap calloc allocate
new_globals-Lives =
    set_up_done new_files new_clients (record { blocks = 1 ∷ 0 ∷ []; next = 2; answers = [] })
      four_blocks refl refl

Operation-Keeps_example : Keeps (connect 5 new_globals) four_blocks []
unfolding find_value
Operation-Keeps_example =
    Operation-Keeps new_heap four_blocks new_globals (connect 5 new_globals) [] new_heap-IsAmple
      new_globals-Lives (accepts_one 5 refl)

abbrev one_client : Globals
one_client = record {
  server_files = new_files;
  fd_to_client = record new_clients {
    entries = record { key = 5; value = record { block = 4; list_buf = none } } ∷ [];
  };
}

abbrev five_blocks : Heap
five_blocks = record { blocks = 4 ∷ 3 ∷ 2 ∷ 1 ∷ 0 ∷ []; next = 5; answers = [] }

connected : connect 5 new_globals four_blocks ≡ some (one_client, five_blocks)
unfolding connect client_create_on_heap calloc dictionary_set_on_heap replace_value
connected = refl

one_client-Lives : Lives new_heap one_client five_blocks
unfolding find_value
one_client-Lives = operated (accepts_one 5 refl) connected new_globals-Lives

cleanup_memory-leaves_example :
    (h2 : Heap) × (cleanup_memory (some new_files) (some one_client.fd_to_client) five_blocks
      ≡ some (tt, h2))
    × IsHeap h2 (4 ∷ [])
cleanup_memory-leaves_example =
    cleanup_memory-leaves new_heap five_blocks one_client [] new_heap-IsAmple one_client-Lives

-- A heap on which the second allocation fails.
abbrev small_heap : Heap
small_heap = record { blocks = []; next = 0; answers = true ∷ false ∷ [] }
