-- ===== src/Memory/Frees.antt =====
-- What the destroying functions free.
use file_system_server.Base.{
  ℕ, ◌≡◌, refl, ◌∙◌, List, [], ◌∷◌, ◌++◌, Option, none, some, append_assoc, subst,
}
use file_system_server.Memory.{Heap, Act, ret, ◌>>◌, free}
use file_system_server.Memory.Laws.{IsHeap, bind_some, free-IsHeap}
use file_system_server.Memory.Collections.{
  HeapVector, HeapDictionary, free_vector, vector_destroy, dictionary_destroy,
}
use file_system_server.Memory.Server.{
  Connection, free_list_buf, client_destroy, free_names, files_freed, cleanup_memory,
}

-- The action succeeds where these blocks are owned, and exactly they are gone then.
abbrev pub Frees : Act (Unit {0}) → List ℕ → Type 0
Frees act gone =
    (h : Heap) (xs : List ℕ)
    → IsHeap h (gone ++ xs)
    → (h' : Heap) × (act h ≡ some (tt, h')) × IsHeap h' xs × (h'.answers ≡ h.answers)

pub Frees-nothing : Frees (ret tt) []
Frees-nothing h xs a = (h, refl, a, refl)

Frees-free : (p : ℕ) → Frees (free (some p)) (p ∷ [])
Frees-free p h xs a = free-IsHeap h p xs a

Frees-then :
    (a b : Act (Unit {0})) (ys zs : List ℕ) → Frees a ys → Frees b zs → Frees (a >> b) (ys ++ zs)
Frees-then a b ys zs fa fb h xs is =
    let (h1, out1, is1, same1) = fa h (zs ++ xs) (subst (IsHeap h) (append_assoc ys zs xs) is) in
    let (h2, out2, is2, same2) = fb h1 xs is1 in
    (h2, bind_some a (λ u. b) out1 ∙ out2, is2, same2 ∙ same1)

-- The blocks behind pointers, of which some are null.
abbrev pub pointed : List (Option ℕ) → List ℕ
pointed [] = []
pointed (none ∷ es) = pointed es
pointed (some p ∷ es) = p ∷ pointed es

abbrev pub vector_blocks : HeapVector → List ℕ
vector_blocks v = v.data_block ∷ v.this ∷ []

abbrev pub dictionary_blocks : {A : Type 0} → HeapDictionary A → List ℕ
dictionary_blocks d = d.entries_block ∷ d.this ∷ []

abbrev pub connection_blocks : Connection → List ℕ
connection_blocks c = pointed (c.list_buf ∷ []) ++ c.block ∷ []

free_vector-Frees : (v : HeapVector) → Frees (free_vector v) (vector_blocks v)
free_vector-Frees v =
    Frees-then (free (some v.data_block)) (free (some v.this)) (v.data_block ∷ []) (v.this ∷ [])
      (Frees-free v.data_block) (Frees-free v.this)

free_names-Frees : (es : List (Option ℕ)) → Frees (free_names es) (pointed es)
unfolding free_names free
free_names-Frees [] = Frees-nothing
free_names-Frees (none ∷ es) = free_names-Frees es
free_names-Frees (some p ∷ es) =
    Frees-then (free (some p)) (free_names es) (p ∷ []) (pointed es) (Frees-free p)
      (free_names-Frees es)

free_list_buf-Frees : (b : Option ℕ) → Frees (free_list_buf b) (pointed (b ∷ []))
free_list_buf-Frees none = Frees-nothing
free_list_buf-Frees (some p) = Frees-free p

pub client_destroy-Frees : (c : Connection) → Frees (client_destroy (some c)) (connection_blocks c)
unfolding client_destroy
client_destroy-Frees c =
    Frees-then (free_list_buf c.list_buf) (free (some c.block)) _ _ (free_list_buf-Frees c.list_buf)
      (Frees-free c.block)

dictionary_destroy-Frees :
    {A : Type 0} (d : HeapDictionary A) → Frees (dictionary_destroy (some d)) (dictionary_blocks d)
unfolding dictionary_destroy
dictionary_destroy-Frees d =
    Frees-then (free (some d.entries_block)) (free (some d.this)) (d.entries_block ∷ [])
      (d.this ∷ []) (Frees-free d.entries_block) (Frees-free d.this)

pub cleanup_memory-Frees :
    (v : HeapVector) (d : HeapDictionary Connection)
    → Frees
        (cleanup_memory (some v) (some d))
        ((pointed v.elements ++ vector_blocks v) ++ dictionary_blocks d)
unfolding cleanup_memory vector_destroy
cleanup_memory-Frees v d =
    Frees-then (files_freed (some v)) (dictionary_destroy (some d))
      (pointed v.elements ++ vector_blocks v) (dictionary_blocks d)
      (Frees-then (free_names v.elements) (vector_destroy none (some v)) (pointed v.elements)
        (vector_blocks v) (free_names-Frees v.elements) (free_vector-Frees v))
      (dictionary_destroy-Frees d)
