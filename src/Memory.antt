-- ===== src/Memory.antt =====
-- The heap of the C library, as collections.c and server.c use it: which blocks are allocated.
pub mod Laws
pub mod Collections
pub mod Server
pub mod Frees
pub mod Grows
pub mod Life
use file_system_server.Base.{
  ℕ, zero, suc, ◌+◌, Bool, true, false, List, [], ◌∷◌, Option, none, some, ltb, ◌==◌, if◌then◌else◌,
}

-- `blocks` are the blocks that are allocated, `next` is the address of the next one, and `answers` says
-- which of the next allocations succeed; with no answer left they all do.
pub record Heap : Type 0 where
  pub blocks : List ℕ
  pub next : ℕ
  pub answers : List Bool

abbrev pub occurs : ℕ → ℕ → ℕ
occurs p q = if p == q then 1 else 0

unfoldable pub count : ℕ → List ℕ → ℕ
count p [] = 0
count p (q ∷ qs) = occurs p q + count p qs

unfoldable pub remove_one : ℕ → List ℕ → List ℕ
remove_one p [] = []
remove_one p (q ∷ qs) = let rest = remove_one p qs in if p == q then qs else q ∷ rest

-- Code that uses the heap; `none` is undefined behaviour.
abbrev pub Act : Type 0 → Type 0
Act A = Heap → Option (A × Heap)

abbrev pub ret : {A : Type 0} → A → Act A
ret a h = some (a, h)

abbrev pub undefined : {A : Type 0} → Act A
undefined h = none

infixl 5 ◌>>=◌ ◌>>◌
abbrev pub ◌>>=◌ : {A B : Type 0} → Act A → (A → Act B) → Act B
◌>>=◌ a next h = elim (a h) [ none ↦ none | some (x, h') ↦ next x h' ]

abbrev pub ◌>>◌ : {B : Type 0} → Act (Unit {0}) → Act B → Act B
a >> next = a >>= λ _. next

abbrev pub taken_block : List Bool → Heap → Heap
taken_block answers h = record { blocks = h.next ∷ h.blocks; next = suc h.next; answers = answers }

unfoldable pub allocate : List Bool → Act (Option ℕ)
allocate [] h = some (some h.next, taken_block [] h)
allocate (true ∷ answers) h = some (some h.next, taken_block answers h)
allocate (false ∷ answers) h = some (none, record h { answers = answers })

-- `calloc`, and `strdup`: the null pointer where there is no memory.
unfoldable pub calloc : Act (Option ℕ)
unfolding allocate
calloc h = allocate h.answers h

-- A block is freed once; `free(NULL)` does nothing.
unfoldable pub free : Option ℕ → Act (Unit {0})
free none h = some (tt, h)
free (some p) h =
    if ltb 0 (count p h.blocks)
    then some (tt, record h { blocks = remove_one p h.blocks })
    else none

abbrev pub moved : ℕ → Option ℕ → Act (Option ℕ)
moved p none = ret none
moved p (some q) = do free (some p); ret (some q)

-- `realloc`: the block moves; where there is no memory, the old one stays.
unfoldable pub realloc : ℕ → Act (Option ℕ)
unfolding calloc free
realloc p = do q ← calloc; moved p q
