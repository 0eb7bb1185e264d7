-- ===== src/Memory/Life.antt =====
-- The life of the server's memory: what it owns at each moment, and what `cleanup` leaves of it.
pub mod Operations
pub mod Whole
use file_system_server.Base.{
  ℕ, zero, suc, ◌+◌, ◌≡◌, refl, sym, ap, subst, ◌∙◌, Bool, true, false, List, [], ◌∷◌, ◌++◌, Option,
  none, some, arith, take, drop, get_elem?, ◌==◌, if◌then◌else◌, Bool-cases, inl, inr, append_assoc,
  none-some, some_eq,
}
use file_system_server.Collections.Dictionary.{Entry, find_value, replace_value, remove_entry}
use file_system_server.Memory.{Heap, Act, ret, ◌>>=◌, ◌>>◌, calloc, free, count}
use file_system_server.Memory.Laws.{
  IsHeap, IsHeap-same, IsAmple, count-append, bind_some, given, refused, calloc-Allocated,
  free-IsHeap,
}
use file_system_server.Memory.Collections.{
  HeapVector, HeapDictionary, vector_push_back_on_heap, dictionary_add_on_heap,
  dictionary_set_on_heap,
}
use file_system_server.Memory.Server.{
  Connection, Globals, with_files, with_clients, with_entries, replaced, client_made,
  client_create_on_heap, client_destroy, connect, list_on_heap, disconnect, add_name, remove_name,
  cleanup_memory,
}
use file_system_server.Memory.Frees.{
  pointed, vector_blocks, dictionary_blocks, connection_blocks, client_destroy-Frees,
  cleanup_memory-Frees,
}
use file_system_server.Memory.Grows.{
  pointed_append, vector_push_back_on_heap-IsAmple, dictionary_add_on_heap-IsAmple,
}

-- The blocks of the connections in the table.
abbrev pub client_blocks : List (Entry Connection) → List ℕ
client_blocks [] = []
client_blocks (e ∷ es) = connection_blocks e.value ++ client_blocks es

abbrev pub owned : Globals → List ℕ
owned g =
    (pointed g.server_files.elements ++ vector_blocks g.server_files)
    ++ (dictionary_blocks g.fd_to_client ++ client_blocks g.fd_to_client.entries)

pub client_blocks_append :
    (es fs : List (Entry Connection))
    → client_blocks (es ++ fs) ≡ client_blocks es ++ client_blocks fs
client_blocks_append [] fs = refl
client_blocks_append (e ∷ es) fs =
    ap (λ z. connection_blocks e.value ++ z) (client_blocks_append es fs)
    ∙ sym (append_assoc (connection_blocks e.value) (client_blocks es) (client_blocks fs))

pub replace_absent :
    (k : ℕ) (c : Connection) (es : List (Entry Connection))
    → find_value k es ≡ none
    → replace_value k c es ≡ none
unfolding find_value replace_value
replace_absent k c [] e = refl
replace_absent k c (x ∷ es) e = ground (arith, replace_absent k c es)

pub count-removed :
    (r k : ℕ) (c : Connection) (es : List (Entry Connection))
    → find_value k es ≡ some c
    → count r (client_blocks es)
      ≡ count r (connection_blocks c) + count r (client_blocks (remove_entry k es))
unfolding find_value remove_entry
count-removed r k c [] e = absurd (none-some e)
count-removed r k c (x ∷ es) e = elim (Bool-cases (x.key == k)) [
  | inl at ↦ rw at (
      count-append r (connection_blocks x.value) (client_blocks es)
      ∙ ap (λ z. count r (connection_blocks z) + count r (client_blocks es)) (found at))
  | inr off ↦ rw off (
      omega (
        arith,
        count-append r (connection_blocks x.value) (client_blocks es),
        count-append r (connection_blocks x.value) (client_blocks (remove_entry k es)),
        count-removed r k c es (later off),
      ))
]
  where
    found : (x.key == k) ≡ true → x.value ≡ c
    found at = some_eq (sym (ap (λ b. if b then some x.value else find_value k es) at) ∙ e)

    later : (x.key == k) ≡ false → find_value k es ≡ some c
    later off = sym (ap (λ b. if b then some x.value else find_value k es) off) ∙ e

replace_later :
    (k : ℕ) (c : Connection) (x : Entry Connection) (es es' : List (Entry Connection))
    → (x.key == k) ≡ false
    → replace_value k c es ≡ some es'
    → replace_value k c (x ∷ es) ≡ some (x ∷ es')
unfolding replace_value
replace_later k c x es es' off out = rw (off, out) refl

-- The entry that changes has its old blocks no more, and its new ones.
pub count-replaced :
    (k : ℕ) (c c' : Connection) (es : List (Entry Connection))
    → find_value k es ≡ some c
    → (es' : List (Entry Connection)) × (replace_value k c' es ≡ some es')
      × ((r : ℕ)
          → count r (client_blocks es') + count r (connection_blocks c)
            ≡ count r (client_blocks es) + count r (connection_blocks c'))
unfolding find_value replace_value
count-replaced k c c' [] e = absurd (none-some e)
count-replaced k c c' (x ∷ es) e = elim (Bool-cases (x.key == k)) [
  | inl at ↦
      let is : x.value ≡ c =
        some_eq (sym (ap (λ b. if b then some x.value else find_value k es) at) ∙ e) in
      (
        record x { value = c' } ∷ es,
        rw at refl,
        λ r. omega (
          arith,
          count-append r (connection_blocks c') (client_blocks es),
          count-append r (connection_blocks x.value) (client_blocks es),
          ap (λ z. count r (connection_blocks z)) is,
        ),
      )
  | inr off ↦
      let (es', out, same) =
        count-replaced k c c' es
          (sym (ap (λ b. if b then some x.value else find_value k es) off) ∙ e) in
      (
        x ∷ es',
        replace_later k c' x es es' off out,
        λ r. omega (
          arith,
          count-append r (connection_blocks x.value) (client_blocks es'),
          count-append r (connection_blocks x.value) (client_blocks es),
          same r,
        ),
      )
]

-- The action succeeds and the heap holds what the globals own then.
abbrev pub Keeps : Act Globals → Heap → List ℕ → Type 0
Keeps act h xs =
    (g' : Globals) × (h' : Heap) × (act h ≡ some (g', h')) × IsAmple h' (owned g' ++ xs)
