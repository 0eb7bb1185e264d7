-- ===== src/Memory/Life/Whole.antt =====
-- The server's memory from set-up to `cleanup`.
use file_system_server.Base.{
  ℕ, ◌≡◌, refl, sym, subst, ◌∙◌, List, ◌++◌, Option, none, some, arith, get_elem?,
}
use file_system_server.Collections.Dictionary.{find_value}
use file_system_server.Memory.{Heap, Act, count}
use file_system_server.Memory.Laws.{IsHeap, IsHeap-same, IsAmple, count-append}
use file_system_server.Memory.Collections.{
  HeapVector, HeapDictionary, vector_create_on_heap, dictionary_create_on_heap,
}
use file_system_server.Memory.Server.{
  Connection, Globals, connect, list_on_heap, disconnect, add_name, remove_name, cleanup_memory,
}
use file_system_server.Memory.Frees.{
  pointed, vector_blocks, dictionary_blocks, cleanup_memory-Frees,
}
use file_system_server.Memory.Grows.{
  Creates-IsAmple, vector_create_on_heap-Creates, dictionary_create_on_heap-Creates,
}
use file_system_server.Memory.Life.{client_blocks, owned, Keeps}
use file_system_server.Memory.Life.Operations.{
  connect-Keeps, list_on_heap-Keeps, disconnect-Keeps, add_name-Keeps, remove_name-Keeps,
}

-- What the server does with its memory in its loop: it accepts a connection whose descriptor is new, makes a
-- list for a connection that has none, ends a connection, stores a name, or removes one.
pub data Operation (g : Globals) : Act Globals → Type 0 where
  accepts_one : (fd : ℕ) → find_value fd g.fd_to_client.entries ≡ none → Operation g (connect fd g)
  lists :
      (fd : ℕ) (c : Connection)
      → find_value fd g.fd_to_client.entries ≡ some c
      → c.list_buf ≡ none
      → Operation g (list_on_heap fd g)
  ends :
      (fd : ℕ) (c : Connection)
      → find_value fd g.fd_to_client.entries ≡ some c
      → Operation g (disconnect fd g)
  stores : Operation g (add_name g)
  removes :
      (i p : ℕ)
      → get_elem? g.server_files.elements i ≡ some (some p)
      → Operation g (remove_name i g)

-- From two fresh collections on.
pub data Lives (h : Heap) : Globals → Heap → Type 0 where
  set_up_done :
      (v : HeapVector) (d : HeapDictionary Connection) (h1 h2 : Heap)
      → vector_create_on_heap h ≡ some (some v, h1)
      → dictionary_create_on_heap h1 ≡ some (some d, h2)
      → Lives h (record { server_files = v; fd_to_client = d }) h2
  operated :
      {g g' : Globals} {h1 h2 : Heap} {act : Act Globals}
      → Operation g act
      → act h1 ≡ some (g', h2)
      → Lives h g h1
      → Lives h g' h2

operated-Keeps :
    {g : Globals} {act : Act Globals} (h : Heap) (xs : List ℕ)
    → Operation g act
    → IsAmple h (owned g ++ xs)
    → Keeps act h xs
operated-Keeps {g} h xs (accepts_one fd new) a = connect-Keeps fd g h xs new a
operated-Keeps {g} h xs (lists fd c there empty) a = list_on_heap-Keeps fd c g h xs there empty a
operated-Keeps {g} h xs (ends fd c there) a = disconnect-Keeps fd c g h xs there a
operated-Keeps {g} h xs stores a = add_name-Keeps g h xs a
operated-Keeps {g} h xs (removes i p there) a = remove_name-Keeps i p g h xs there a

abbrev vector_owned : HeapVector → List ℕ
vector_owned v = pointed v.elements ++ vector_blocks v

abbrev dictionary_owned : HeapDictionary Connection → List ℕ
dictionary_owned d = dictionary_blocks d ++ client_blocks d.entries

abbrev IsKept : List ℕ → Option (Globals × Heap) → Type 0
IsKept xs none = Unit
IsKept xs (some (g, h)) = IsAmple h (owned g ++ xs)

-- At each moment the heap holds what the globals own, and what was there before.
pub Lives-IsAmple :
    {h : Heap} {g : Globals} {h1 : Heap} (xs : List ℕ)
    → IsAmple h xs
    → Lives h g h1
    → IsAmple h1 (owned g ++ xs)
unfolding count
Lives-IsAmple {h} xs a (set_up_done v d h1 h2 made_v made_d) =
    let b =
      Creates-IsAmple vector_owned h xs v h1 (vector_create_on_heap-Creates h xs a.0) a.1 made_v in
    let c =
      Creates-IsAmple dictionary_owned h1 (vector_owned v ++ xs) d h2
        (dictionary_create_on_heap-Creates client_blocks h1 (vector_owned v ++ xs) refl b.0) b.1
        made_d in
    (
      IsHeap-same h2 (dictionary_owned d ++ (vector_owned v ++ xs))
          ((vector_owned v ++ dictionary_owned d) ++ xs)
          (λ r. omega (
            arith,
            count-append r (dictionary_owned d) (vector_owned v ++ xs),
            count-append r (vector_owned v) xs,
            count-append r (vector_owned v ++ dictionary_owned d) xs,
            count-append r (vector_owned v) (dictionary_owned d),
          ))
          c.0,
      c.1,
    )
Lives-IsAmple xs a (operated {g} {g'} {h1} {h2} op out l) =
    let (g2, h3, out', b) = operated-Keeps h1 xs op (Lives-IsAmple xs a l) in
    subst (IsKept xs) (sym out' ∙ out) b

-- From a heap on which no allocation fails and every block is there once, over the set-up and any
-- operations: each further operation is defined (nothing is freed that is not allocated), and behind
-- it the heap holds exactly the blocks of the vector, of the names, of the table, of the
-- connections in it and of their lists, and what was there before.
pub Operation-Keeps :
    (h h1 : Heap) (g : Globals) (act : Act Globals) (xs : List ℕ)
    → IsAmple h xs
    → Lives h g h1
    → Operation g act
    → Keeps act h1 xs
Operation-Keeps h h1 g act xs a l op = operated-Keeps h1 xs op (Lives-IsAmple xs a l)

-- From a heap on which no allocation fails and every block is there once, over the set-up and any
-- operations: `cleanup` is defined (nothing is freed twice), and leaves exactly what was there before and
-- the blocks of the connections that are still in the table, with their lists.
pub cleanup_memory-leaves :
    (h h1 : Heap) (g : Globals) (xs : List ℕ)
    → IsAmple h xs
    → Lives h g h1
    → (h2 : Heap) × (cleanup_memory (some g.server_files) (some g.fd_to_client) h1 ≡ some (tt, h2))
      × IsHeap h2 (client_blocks g.fd_to_client.entries ++ xs)
unfolding count
cleanup_memory-leaves h h1 g xs a l =
    let v = g.server_files in
    let d = g.fd_to_client in
    let rest : List ℕ = client_blocks d.entries ++ xs in
    let b = Lives-IsAmple xs a l in
    let (h2, out, c, same) = cleanup_memory-Frees v d h1 rest (
      IsHeap-same h1 (owned g ++ xs) ((vector_owned v ++ dictionary_blocks d) ++ rest)
        (λ r. omega (
          arith,
          count-append r (owned g) xs,
          count-append r (vector_owned v) (dictionary_owned d),
          count-append r (vector_owned v ++ dictionary_blocks d) rest,
          count-append r (vector_owned v) (dictionary_blocks d),
          count-append r (client_blocks d.entries) xs,
        ))
        b.0) in
    (h2, out, c)
