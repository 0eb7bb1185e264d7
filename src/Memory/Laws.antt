-- ===== src/Memory/Laws.antt =====
-- What a heap holds, and what allocating and freeing change of it.
use file_system_server.Base.{
  ℕ, ◌+◌, ◌≤◌, ◌<◌, ◌≡◌, refl, ap, ◌∙◌, Bool, Option, true, false, List, [], ◌∷◌, ◌++◌, none, some,
  arith, lt→ltb, ◌==◌, Bool-cases, inl, inr,
}
use file_system_server.Memory.{
  Heap, taken_block, Act, ret, ◌>>=◌, occurs, count, remove_one, allocate, calloc, free, realloc,
  moved,
}

pub bind_some :
    {A B : Type 0} (a : Act A) (next : A → Act B) {h h' : Heap} {x : A}
    → a h ≡ some (x, h')
    → (a >>= next) h ≡ next x h'
bind_some a next e = rw (e, ◌>>=◌) refl

pub count-append : (p : ℕ) (xs ys : List ℕ) → count p (xs ++ ys) ≡ count p xs + count p ys
unfolding count
count-append p [] ys = omega arith
count-append p (x ∷ xs) ys = omega (arith, count-append p xs ys)

count-remove_one :
    (p q : ℕ) (xs : List ℕ) → 0 < count q xs → count p (remove_one q xs) + occurs p q ≡ count p xs
unfolding count remove_one
count-remove_one p q [] h = absurd (omega arith)
count-remove_one p q (x ∷ xs) h = elim (Bool-cases (q == x)) [
  | inl e ↦ ground arith
  | inr e ↦ rw e (ground (arith, count-remove_one p q xs (ground arith)))
]

-- The blocks of the heap are these, each once, and addresses from `next` on are new.
pub record IsHeap (h : Heap) (owned : List ℕ) : Type 0 where
  pub exact : (p : ℕ) → count p h.blocks ≡ count p owned
  pub once : (p : ℕ) → count p h.blocks ≤ 1
  pub fresh : (p : ℕ) → h.next ≤ p → count p h.blocks ≡ 0

-- And no allocation fails.
abbrev pub IsAmple : Heap → List ℕ → Type 0
IsAmple h owned = IsHeap h owned × (h.answers ≡ [])

-- The order in which the blocks are listed does not matter.
pub IsHeap-same :
    (h : Heap) (xs ys : List ℕ) → ((p : ℕ) → count p xs ≡ count p ys) → IsHeap h xs → IsHeap h ys
IsHeap-same h xs ys e a = record { exact = λ p. a.exact p ∙ e p; once = a.once; fresh = a.fresh }

-- The two ways in which an allocation goes.
pub data Allocated (h : Heap) (xs : List ℕ) (out : Option (Option ℕ × Heap)) : Type 0 where
  given :
      (q : ℕ) (h' : Heap)
      → out ≡ some (some q, h')
      → IsHeap h' (q ∷ xs)
      → (h.answers ≡ [] → h'.answers ≡ [])
      → Allocated h xs out
  refused :
      (h' : Heap) → out ≡ some (none, h') → IsHeap h' xs → (h.answers ≡ [] → ⊥) → Allocated h xs out

pub calloc-Allocated : (h : Heap) (xs : List ℕ) → IsHeap h xs → Allocated h xs (calloc h)
unfolding calloc allocate count
calloc-Allocated h xs a = go h.answers refl
  where
    new : (answers : List Bool) → IsHeap (taken_block answers h) (h.next ∷ xs)
    new answers = record {
      exact = λ p. ap (λ k. occurs p h.next + k) (a.exact p);
      once = λ p. ground (arith, a.once p, a.fresh p);
      fresh = λ p le. ground (arith, a.fresh p);
    }

    go : (answers : List Bool) → h.answers ≡ answers → Allocated h xs (allocate answers h)
    go [] e = given h.next (taken_block [] h) refl (new []) (λ x. refl)
    go (true ∷ answers) e = given h.next (taken_block answers h) refl (new answers) (λ x. cc)
    go (false ∷ answers) e =
        refused (record h { answers = answers }) refl
          (record { exact = a.exact; once = a.once; fresh = a.fresh }) (λ x. cc)

-- A block that is owned can be freed, and is gone then.
pub free-IsHeap :
    (h : Heap) (p : ℕ) (xs : List ℕ)
    → IsHeap h (p ∷ xs)
    → (h' : Heap) × (free (some p) h ≡ some (tt, h')) × IsHeap h' xs × (h'.answers ≡ h.answers)
unfolding free count
free-IsHeap h p xs a =
    let there : 0 < count p h.blocks = ground (arith, a.exact p) in
    let gone = λ (q : ℕ). count-remove_one q p h.blocks there in
    (
      record h { blocks = remove_one p h.blocks },
      rw (lt→ltb 0 (count p h.blocks) there) refl,
      record {
        exact = λ q. omega (arith, gone q, a.exact q);
        once = λ q. omega (arith, gone q, a.once q);
        fresh = λ q le. omega (arith, gone q, a.fresh q le);
      },
      refl,
    )

-- A block that moves is another block, and the old one where there is no memory.
pub data Moved (h : Heap) (p : ℕ) (xs : List ℕ) (out : Option (Option ℕ × Heap)) : Type 0 where
  moved_to :
      (q : ℕ) (h' : Heap)
      → out ≡ some (some q, h')
      → IsHeap h' (q ∷ xs)
      → (h.answers ≡ [] → h'.answers ≡ [])
      → Moved h p xs out
  stayed :
      (h' : Heap)
      → out ≡ some (none, h')
      → IsHeap h' (p ∷ xs)
      → (h.answers ≡ [] → ⊥)
      → Moved h p xs out

pub realloc-Moved :
    (h : Heap) (p : ℕ) (xs : List ℕ) → IsHeap h (p ∷ xs) → Moved h p xs (realloc p h)
unfolding realloc count
realloc-Moved h p xs a = elim (calloc-Allocated h (p ∷ xs) a) [
  | given q h1 got a1 ample ↦
      let (h2, freed, a2, same) =
        free-IsHeap h1 p (q ∷ xs)
          (IsHeap-same h1 (q ∷ p ∷ xs) (p ∷ q ∷ xs) (λ r. omega arith) a1) in
      moved_to q h2
        (bind_some calloc (moved p) got ∙ bind_some (free (some p)) (λ u. ret (some q)) freed) a2
        (λ x. same ∙ ample x)
  | refused h1 got a1 short ↦ stayed h1 (bind_some calloc (moved p) got) a1 short
]
