-- ===== src/Memory/Life/Operations.antt =====
-- Each operation of the server on its memory succeeds, and keeps what is owned.
use file_system_server.Base.{
  ℕ, zero, suc, ◌+◌, ◌≡◌, sym, ap, subst, ◌∙◌, List, [], ◌∷◌, ◌++◌, Option, none, some, arith, take,
  drop, get_elem?, append_assoc, none-some, some_eq,
}
use file_system_server.Collections.Dictionary.{Entry, find_value, replace_value, remove_entry}
use file_system_server.Memory.{Heap, Act, ret, ◌>>=◌, calloc, free, occurs, count}
use file_system_server.Memory.Laws.{
  IsHeap, IsHeap-same, IsAmple, count-append, bind_some, given, refused, calloc-Allocated,
  free-IsHeap,
}
use file_system_server.Memory.Collections.{
  HeapVector, HeapDictionary, vector_push_back_on_heap, dictionary_set_on_heap,
}
use file_system_server.Memory.Server.{
  Connection, Globals, with_files, with_clients, with_entries, replaced, client_made,
  client_create_on_heap, client_destroy, connect, list_on_heap, disconnect, add_name, remove_name,
}
use file_system_server.Memory.Frees.{
  pointed, vector_blocks, dictionary_blocks, connection_blocks, client_destroy-Frees,
}
use file_system_server.Memory.Grows.{
  vector_push_back_on_heap-IsAmple, dictionary_add_on_heap-IsAmple,
}
use file_system_server.Memory.Life.{
  client_blocks, owned, client_blocks_append, replace_absent, count-removed, count-replaced, Keeps,
}

pub connect-Keeps :
    (fd : ℕ) (g : Globals) (h : Heap) (xs : List ℕ)
    → find_value fd g.fd_to_client.entries ≡ none
    → IsAmple h (owned g ++ xs)
    → Keeps (connect fd g) h xs
unfolding connect client_create_on_heap dictionary_set_on_heap count
connect-Keeps fd g h xs new (a, ample) = elim (calloc-Allocated h (owned g ++ xs) a) [
  | refused h1 e a1 short ↦ absurd (short ample)
  | given q h1 e a1 more ↦
      let c : Connection = record { block = q; list_buf = none } in
      let d : HeapDictionary Connection = g.fd_to_client in
      let files : List ℕ = pointed g.server_files.elements ++ vector_blocks g.server_files in
      let ys : List ℕ = q ∷ (files ++ (client_blocks d.entries ++ xs)) in
      let (d', h2, out, is, (a2, ample2)) = dictionary_add_on_heap-IsAmple d fd c h1 ys (
        IsHeap-same h1 (q ∷ (owned g ++ xs)) (dictionary_blocks d ++ ys)
            (λ r. omega (
              arith,
              count-append r (owned g) xs,
              count-append r files (dictionary_blocks d ++ client_blocks d.entries),
              count-append r files (client_blocks d.entries ++ xs),
              count-append r (client_blocks d.entries) xs,
            ))
            a1,
        more ample,
      ) in
      let set : dictionary_set_on_heap d fd c h1 ≡ some (d', h2) =
        rw (replace_absent fd c d.entries new, dictionary_set_on_heap) out in
      (
        with_clients g d',
        h2,
        bind_some client_create_on_heap
              (λ c'. dictionary_set_on_heap d fd c' >>= λ e'. ret (with_clients g e'))
              (bind_some calloc client_made e)
            ∙ bind_some (dictionary_set_on_heap d fd c) (λ e'. ret (with_clients g e')) set,
        (
          IsHeap-same h2 (dictionary_blocks d' ++ ys) (owned (with_clients g d') ++ xs)
              (λ r. omega (
                arith,
                count-append r (owned (with_clients g d')) xs,
                count-append r files (dictionary_blocks d' ++ client_blocks d'.entries),
                count-append r files (client_blocks d.entries ++ xs),
                count-append r (client_blocks d.entries) xs,
                ap (λ z. count r (client_blocks z)) is,
                ap (count r) (client_blocks_append d.entries (record { key = fd; value = c } ∷ [])),
                count-append r (client_blocks d.entries) (q ∷ []),
              ))
              a2,
          ample2,
        ),
      )
]

pub list_on_heap-Keeps :
    (fd : ℕ) (c : Connection) (g : Globals) (h : Heap) (xs : List ℕ)
    → find_value fd g.fd_to_client.entries ≡ some c
    → c.list_buf ≡ none
    → IsAmple h (owned g ++ xs)
    → Keeps (list_on_heap fd g) h xs
unfolding list_on_heap count
list_on_heap-Keeps fd c g h xs there empty (a, ample) =
    elim (calloc-Allocated h (owned g ++ xs) a) [
      | refused h1 e a1 short ↦ absurd (short ample)
      | given q h1 e a1 more ↦
          let c' : Connection = record c { list_buf = some q } in
          let d : HeapDictionary Connection = g.fd_to_client in
          let files : List ℕ = pointed g.server_files.elements ++ vector_blocks g.server_files in
          let (es', out, same) = count-replaced fd c c' d.entries there in
          let next : Option ℕ → Act Globals =
            λ b. ret (replaced g (replace_value fd (record c { list_buf = b }) d.entries)) in
          (
            with_entries g es',
            h1,
            rw (there, list_on_heap)
                (bind_some calloc next e ∙ ap (λ o. some (replaced g o, h1)) out),
            (
              IsHeap-same h1 (q ∷ (owned g ++ xs)) (owned (with_entries g es') ++ xs)
                  (λ r. omega (
                    arith,
                    count-append r (owned g) xs,
                    count-append r (owned (with_entries g es')) xs,
                    count-append r files (dictionary_blocks d ++ client_blocks d.entries),
                    count-append r files (dictionary_blocks d ++ client_blocks es'),
                    same r,
                    ap (λ b. count r (pointed (b ∷ []) ++ c.block ∷ [])) empty,
                  ))
                  a1,
              more ample,
            ),
          )
    ]

pub disconnect-Keeps :
    (fd : ℕ) (c : Connection) (g : Globals) (h : Heap) (xs : List ℕ)
    → find_value fd g.fd_to_client.entries ≡ some c
    → IsAmple h (owned g ++ xs)
    → Keeps (disconnect fd g) h xs
unfolding disconnect count
disconnect-Keeps fd c g h xs there (a, ample) =
    let d : HeapDictionary Connection = g.fd_to_client in
    let es : List (Entry Connection) = remove_entry fd d.entries in
    let files : List ℕ = pointed g.server_files.elements ++ vector_blocks g.server_files in
    let rest : List ℕ = owned (with_entries g es) ++ xs in
    let (h1, out, a1, same) = client_destroy-Frees c h rest (
      IsHeap-same h (owned g ++ xs) (connection_blocks c ++ rest)
        (λ r. omega (
          arith,
          count-append r (owned g) xs,
          count-append r (connection_blocks c) rest,
          count-append r (owned (with_entries g es)) xs,
          count-append r files (dictionary_blocks d ++ client_blocks d.entries),
          count-append r files (dictionary_blocks d ++ client_blocks es),
          count-removed r fd c d.entries there,
        ))
        a) in
    (
      with_entries g es,
      h1,
      rw (there, disconnect)
          (bind_some (client_destroy (some c)) (λ u. ret (with_entries g es)) out),
      (a1, same ∙ ample),
    )

pub add_name-Keeps :
    (g : Globals) (h : Heap) (xs : List ℕ) → IsAmple h (owned g ++ xs) → Keeps (add_name g) h xs
unfolding add_name count
add_name-Keeps g h xs (a, ample) = elim (calloc-Allocated h (owned g ++ xs) a) [
  | refused h1 e a1 short ↦ absurd (short ample)
  | given q h1 e a1 more ↦
      let v : HeapVector = g.server_files in
      let clients : List ℕ =
        dictionary_blocks g.fd_to_client ++ client_blocks g.fd_to_client.entries in
      let (v', h2, out, is, b) = vector_push_back_on_heap-IsAmple v q h1 (clients ++ xs) (
        subst (λ z. IsHeap h1 (q ∷ z))
            (append_assoc (pointed v.elements ++ vector_blocks v) clients xs) a1,
        more ample,
      ) in
      (
        with_files g v',
        h2,
        bind_some calloc (λ name. vector_push_back_on_heap v name >>= λ w. ret (with_files g w)) e
            ∙ bind_some (vector_push_back_on_heap v (some q)) (λ w. ret (with_files g w)) out,
        subst (IsAmple h2) (sym (append_assoc (pointed v'.elements ++ vector_blocks v') clients xs))
            b,
      )
]

count-erased :
    (r i p : ℕ) (es : List (Option ℕ))
    → get_elem? es i ≡ some (some p)
    → count r (pointed es) ≡ occurs r p + count r (pointed (take i es ++ drop (suc i) es))
unfolding count
count-erased r i p [] e = absurd (none-some e)
count-erased r zero p (x ∷ es) e = ap (λ z. count r (pointed (z ∷ es))) (some_eq e)
count-erased r (suc i) p (none ∷ es) e = count-erased r i p es e
count-erased r (suc i) p (some q ∷ es) e = omega (arith, count-erased r i p es e)

count-erased_at :
    (r i p : ℕ) (es : List (Option ℕ))
    → get_elem? es i ≡ some (some p)
    → count r (pointed es) ≡ occurs r p + count r (pointed (take i es ++ drop (i + 1) es))
count-erased_at r i p es e =
    let at : suc i ≡ i + 1 = omega arith in
    count-erased r i p es e ∙ ap (λ k. occurs r p + count r (pointed (take i es ++ drop k es))) at

pub remove_name-Keeps :
    (i p : ℕ) (g : Globals) (h : Heap) (xs : List ℕ)
    → get_elem? g.server_files.elements i ≡ some (some p)
    → IsAmple h (owned g ++ xs)
    → Keeps (remove_name i g) h xs
unfolding remove_name count
remove_name-Keeps i p g h xs there (a, ample) =
    let v : HeapVector = g.server_files in
    let w : HeapVector = record v { elements = take i v.elements ++ drop (i + 1) v.elements } in
    let clients : List ℕ =
      dictionary_blocks g.fd_to_client ++ client_blocks g.fd_to_client.entries in
    let rest : List ℕ = owned (with_files g w) ++ xs in
    let (h1, out, a1, same) = free-IsHeap h p rest (
      IsHeap-same h (owned g ++ xs) (p ∷ rest)
        (λ r. omega (
          arith,
          count-append r (owned g) xs,
          count-append r (owned (with_files g w)) xs,
          count-append r (pointed v.elements ++ vector_blocks v) clients,
          count-append r (pointed w.elements ++ vector_blocks w) clients,
          count-append r (pointed v.elements) (vector_blocks v),
          count-append r (pointed w.elements) (vector_blocks w),
          count-erased_at r i p v.elements there,
        ))
        a) in
    (
      with_files g w,
      h1,
      rw (there, remove_name) (bind_some (free (some p)) (λ u. ret (with_files g w)) out),
      (a1, same ∙ ample),
    )
