-- ===== src/Memory/Grows.antt =====
-- What the functions that allocate own, also where an allocation fails.
use file_system_server.Base.{
  ℕ, ◌*◌, ◌≡◌, refl, sym, ap, ◌∙◌, List, [], ◌∷◌, ◌++◌, Option, none, some, arith, length, ◌==◌,
  Bool-cases, inl, inr, subst, some_eq,
}
use file_system_server.Collections.Vector.{growth_factor}
use file_system_server.Collections.Dictionary.{Entry}
use file_system_server.Memory.{Heap, ret, calloc, free, realloc, count}
use file_system_server.Memory.Laws.{
  IsHeap, IsHeap-same, IsAmple, count-append, bind_some, given, refused, calloc-Allocated,
  free-IsHeap, moved_to, stayed, realloc-Moved,
}
use file_system_server.Memory.Collections.{
  HeapVector, HeapDictionary, vector_started, vector_made, vector_create_on_heap, vector_grown,
  vector_push_back_on_heap, dictionary_started, dictionary_made, dictionary_create_on_heap,
  dictionary_grown, dictionary_add_on_heap,
}
use file_system_server.Memory.Frees.{pointed, vector_blocks, dictionary_blocks}

-- A function that makes a structure: it owns its blocks, or there is no memory and nothing is left.
pub data Creates {A : Type 0} (owned : A → List ℕ) (h : Heap) (xs : List ℕ)
    (out : Option (Option A × Heap)) : Type 0 where
  created :
      (x : A) (h' : Heap)
      → out ≡ some (some x, h')
      → IsHeap h' (owned x ++ xs)
      → (h.answers ≡ [] → h'.answers ≡ [])
      → Creates owned h xs out
  no_memory :
      (h' : Heap)
      → out ≡ some (none, h')
      → IsHeap h' xs
      → (h.answers ≡ [] → ⊥)
      → Creates owned h xs out

abbrev IsOwned : {A : Type 0} → (A → List ℕ) → List ℕ → Option A × Heap → Type 0
IsOwned owned xs (none, h) = Unit
IsOwned owned xs (some x, h) = IsAmple h (owned x ++ xs)

pub Creates-IsAmple :
    {A : Type 0} (owned : A → List ℕ) (h : Heap) (xs : List ℕ) {out : Option (Option A × Heap)}
    (x : A) (h1 : Heap)
    → Creates owned h xs out
    → h.answers ≡ []
    → out ≡ some (some x, h1)
    → IsAmple h1 (owned x ++ xs)
Creates-IsAmple owned h xs x h1 (created y h2 e a more) ample out =
    subst (IsOwned owned xs) (some_eq (sym e ∙ out)) (a, more ample)
Creates-IsAmple owned h xs x h1 (no_memory h2 e a short) ample out = absurd (short ample)

pub vector_create_on_heap-Creates :
    (h : Heap) (xs : List ℕ)
    → IsHeap h xs
    → Creates (λ v. pointed v.elements ++ vector_blocks v) h xs (vector_create_on_heap h)
unfolding vector_create_on_heap
vector_create_on_heap-Creates h xs a = elim (calloc-Allocated h xs a) [
  | refused h1 e a1 short ↦ no_memory h1 (bind_some calloc vector_started e) a1 short
  | given this h1 e a1 ample ↦ elim (calloc-Allocated h1 (this ∷ xs) a1) [
    | given data_block h2 e2 a2 ample2 ↦
        created _ h2 (bind_some calloc vector_started e ∙ bind_some calloc (vector_made this) e2) a2
          (λ x. ample2 (ample x))
    | refused h2 e2 a2 short ↦
        let (h3, e3, a3, same) = free-IsHeap h2 this xs a2 in
        no_memory h3
          (bind_some calloc vector_started e
            ∙ bind_some calloc (vector_made this) e2
            ∙ bind_some (free (some this)) (λ u. ret none) e3)
          a3 (λ x. short (ample x))
  ]
]

pub dictionary_create_on_heap-Creates :
    {A : Type 0} (values : List (Entry A) → List ℕ) (h : Heap) (xs : List ℕ)
    → values [] ≡ []
    → IsHeap h xs
    → Creates {A = HeapDictionary A}
        (λ d. dictionary_blocks d ++ values d.entries)
        h
        xs
        (dictionary_create_on_heap h)
unfolding dictionary_create_on_heap
dictionary_create_on_heap-Creates values h xs none_yet a = elim (calloc-Allocated h xs a) [
  | refused h1 e a1 short ↦ no_memory h1 (bind_some calloc dictionary_started e) a1 short
  | given this h1 e a1 ample ↦ elim (calloc-Allocated h1 (this ∷ xs) a1) [
    | given block h2 e2 a2 ample2 ↦
        created _ h2
          (bind_some calloc dictionary_started e ∙ bind_some calloc (dictionary_made this) e2)
          (subst (λ z. IsHeap h2 ((block ∷ this ∷ z) ++ xs)) (sym none_yet) a2)
          (λ x. ample2 (ample x))
    | refused h2 e2 a2 short ↦
        let (h3, e3, a3, same) = free-IsHeap h2 this xs a2 in
        no_memory h3
          (bind_some calloc dictionary_started e
            ∙ bind_some calloc (dictionary_made this) e2
            ∙ bind_some (free (some this)) (λ u. ret none) e3)
          a3 (λ x. short (ample x))
  ]
]

pub pointed_append : (es fs : List (Option ℕ)) → pointed (es ++ fs) ≡ pointed es ++ pointed fs
pointed_append [] fs = refl
pointed_append (none ∷ es) fs = pointed_append es fs
pointed_append (some p ∷ es) fs = ap (λ z. p ∷ z) (pointed_append es fs)

-- With memory, the array takes the pointer, and the block behind it is then the vector's.
pub vector_push_back_on_heap-IsAmple :
    (v : HeapVector) (p : ℕ) (h : Heap) (xs : List ℕ)
    → IsAmple h (p ∷ ((pointed v.elements ++ vector_blocks v) ++ xs))
    → (v' : HeapVector) × (h' : Heap) × (vector_push_back_on_heap v (some p) h ≡ some (v', h'))
      × (v'.elements ≡ v.elements ++ some p ∷ [])
      × IsAmple h' ((pointed v'.elements ++ vector_blocks v') ++ xs)
unfolding vector_push_back_on_heap count
vector_push_back_on_heap-IsAmple v p h xs (a, ample) =
    elim (Bool-cases (length v.elements == v.capacity)) [
      | inl full ↦
          let ys : List ℕ = p ∷ (v.this ∷ (pointed v.elements ++ xs)) in
          elim (realloc-Moved h v.data_block ys (
            IsHeap-same h (p ∷ ((pointed v.elements ++ vector_blocks v) ++ xs)) (v.data_block ∷ ys)
              (λ r. omega (
                arith,
                count-append r (pointed v.elements ++ vector_blocks v) xs,
                count-append r (pointed v.elements) (vector_blocks v),
                count-append r (pointed v.elements) xs,
              ))
              a)) [
                | moved_to q h1 e a1 more ↦
                    let es : List (Option ℕ) = v.elements ++ some p ∷ [] in
                    (
                      record v {
                        data_block = q;
                        elements = es;
                        capacity = v.capacity * growth_factor;
                      },
                      h1,
                      rw full (bind_some (realloc v.data_block) (vector_grown v (some p)) e),
                      refl,
                      (
                        IsHeap-same h1 (q ∷ ys) ((pointed es ++ (q ∷ v.this ∷ [])) ++ xs)
                            (λ r. omega (
                              arith,
                              count-append r (pointed es ++ (q ∷ v.this ∷ [])) xs,
                              count-append r (pointed es) (q ∷ v.this ∷ []),
                              ap (count r) (pointed_append v.elements (some p ∷ [])),
                              count-append r (pointed v.elements) (p ∷ []),
                              count-append r (pointed v.elements) xs,
                            ))
                            a1,
                        more ample,
                      ),
                    )
                | stayed h1 e a1 short ↦ absurd (short ample)
              ]
      | inr room ↦
          let es : List (Option ℕ) = v.elements ++ some p ∷ [] in
          (
            record v { elements = es },
            h,
            rw room refl,
            refl,
            (
              IsHeap-same h (p ∷ ((pointed v.elements ++ vector_blocks v) ++ xs))
                  ((pointed es ++ vector_blocks v) ++ xs)
                  (λ r. omega (
                    arith,
                    count-append r (pointed v.elements ++ vector_blocks v) xs,
                    count-append r (pointed v.elements) (vector_blocks v),
                    count-append r (pointed es ++ vector_blocks v) xs,
                    count-append r (pointed es) (vector_blocks v),
                    ap (count r) (pointed_append v.elements (some p ∷ [])),
                    count-append r (pointed v.elements) (p ∷ []),
                  ))
                  a,
              ample,
            ),
          )
    ]

pub dictionary_add_on_heap-IsAmple :
    {A : Type 0} (d : HeapDictionary A) (k : ℕ) (value : A) (h : Heap) (xs : List ℕ)
    → IsAmple h (dictionary_blocks d ++ xs)
    → (d' : HeapDictionary A) × (h' : Heap) × (dictionary_add_on_heap d k value h ≡ some (d', h'))
      × (d'.entries ≡ d.entries ++ record { key = k; value = value } ∷ [])
      × IsAmple h' (dictionary_blocks d' ++ xs)
unfolding dictionary_add_on_heap
dictionary_add_on_heap-IsAmple d k value h xs (a, ample) =
    elim (Bool-cases (length d.entries == d.capacity)) [
      | inl full ↦ elim (realloc-Moved h d.entries_block (d.this ∷ xs) a) [
        | moved_to q h1 e a1 more ↦ (
          record d {
            entries_block = q;
            entries = d.entries ++ record { key = k; value = value } ∷ [];
            capacity = d.capacity * growth_factor;
          },
          h1,
          rw full (bind_some (realloc d.entries_block) (dictionary_grown d k value) e),
          refl,
          (a1, more ample),
        )
        | stayed h1 e a1 short ↦ absurd (short ample)
      ]
      | inr room ↦ (
        record d { entries = d.entries ++ record { key = k; value = value } ∷ [] },
        h,
        rw room refl,
        refl,
        (a, ample),
      )
    ]
