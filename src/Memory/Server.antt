-- ===== src/Memory/Server.antt =====
-- server.c, what it allocates and frees: the names, the connections with their lists, and `cleanup`.
use file_system_server.Base.{ℕ, ◌+◌, List, [], ◌∷◌, ◌++◌, Option, none, some, take, drop, get_elem?}
use file_system_server.Collections.Dictionary.{Entry, find_value, replace_value, remove_entry}
use file_system_server.Memory.{Act, ret, undefined, ◌>>=◌, ◌>>◌, calloc, free}
use file_system_server.Memory.Collections.{
  HeapVector, HeapDictionary, vector_push_back_on_heap, vector_destroy, dictionary_set_on_heap,
  dictionary_destroy,
}

-- The address of a `client_t` and its `list_buf`.
pub record Connection : Type 0 where
  pub block : ℕ
  pub list_buf : Option ℕ

-- The globals that point to the heap.
pub record Globals : Type 0 where
  pub server_files : HeapVector
  pub fd_to_client : HeapDictionary Connection

-- The result of `calloc` is written to without a test.
abbrev pub client_made : Option ℕ → Act Connection
client_made none = undefined
client_made (some block) = ret (record { block = block; list_buf = none })

unfoldable pub client_create_on_heap : Act Connection
client_create_on_heap = do block ← calloc; client_made block

abbrev pub free_list_buf : Option ℕ → Act (Unit {0})
free_list_buf none = ret tt
free_list_buf (some buffer) = free (some buffer)

-- The descriptor of the file is not memory.
unfoldable pub client_destroy : Option Connection → Act (Unit {0})
client_destroy none = ret tt
client_destroy (some client) = do free_list_buf client.list_buf; free (some client.block)

abbrev pub with_files : Globals → HeapVector → Globals
with_files g v = record g { server_files = v }

abbrev pub with_clients : Globals → HeapDictionary Connection → Globals
with_clients g d = record g { fd_to_client = d }

abbrev pub with_entries : Globals → List (Entry Connection) → Globals
with_entries g entries = record g { fd_to_client = record g.fd_to_client { entries = entries } }

abbrev pub replaced : Globals → Option (List (Entry Connection)) → Globals
replaced g none = g
replaced g (some entries) = with_entries g entries

-- The end of a round of `accept_connections`.
unfoldable pub connect : ℕ → Globals → Act Globals
connect fd g = do
  client ← client_create_on_heap
  d ← dictionary_set_on_heap g.fd_to_client fd client
  ret (with_clients g d)

-- `client->list_buf = build_list_buffer(&client->list_len)`, whose buffer is the only block.
unfoldable pub list_on_heap : ℕ → Globals → Act Globals
list_on_heap fd g = elim (find_value fd g.fd_to_client.entries) [
  | none ↦ ret g
  | some client ↦ do
    buffer ← calloc
    ret (replaced g (replace_value fd (record client { list_buf = buffer }) g.fd_to_client.entries))
]

-- `dictionary_remove(fd_to_client, &(client->fd)); client_destroy(client)`.
unfoldable pub disconnect : ℕ → Globals → Act Globals
disconnect fd g = elim (find_value fd g.fd_to_client.entries) [
  | none ↦ ret g
  | some client ↦ do
    client_destroy (some client)
    ret (with_entries g (remove_entry fd g.fd_to_client.entries))
]

-- `vector_push_back(server_files, strdup(name))`.
unfoldable pub add_name : Globals → Act Globals
add_name g = do
  name ← calloc
  v ← vector_push_back_on_heap g.server_files name
  ret (with_files g v)

-- `free(vector_get(server_files, i)); vector_erase(server_files, i)`, for an index below the size.
unfoldable pub remove_name : ℕ → Globals → Act Globals
remove_name i g = elim (get_elem? g.server_files.elements i) [
  | none ↦ ret g
  | some name ↦ do
    free name
    ret (
        with_files g (record g.server_files {
          elements = take i g.server_files.elements ++ drop (i + 1) g.server_files.elements;
        }))
]

-- The loop of `cleanup` over the names.
unfoldable pub free_names : List (Option ℕ) → Act (Unit {0})
free_names [] = ret tt
free_names (name ∷ names) = do free name; free_names names

abbrev pub files_freed : Option HeapVector → Act (Unit {0})
files_freed none = ret tt
files_freed (some v) = do free_names v.elements; vector_destroy none (some v)

-- `cleanup`, from `server_files` on.
unfoldable pub cleanup_memory :
    Option HeapVector → Option (HeapDictionary Connection) → Act (Unit {0})
unfolding free_names
cleanup_memory files clients = do files_freed files; dictionary_destroy clients
