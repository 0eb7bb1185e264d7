-- ===== src/Server/Names/Laws.antt =====
-- The list of stored names as a sequence without repetitions.
use native.Mathlib.Numerals.{add-one}
use file_system_server.Base.{
  true-false, ℕ, zero, suc, ◌+◌, ◌<◌, ◌≡◌, ◌≢◌, refl, sym, ap, ◌∙◌, ◌⊎◌, inl, inr, true, false,
  List, [], ◌∷◌, ◌++◌, Option, none, some, arith, length, get_elem?, take, drop, str_eq,
  str_eq_sound, str_eq_refl, if◌then◌else◌, Bool-cases, Option-cases,
}
use file_system_server.Collections.Vector.{Vector, vector_get}
use file_system_server.Collections.Vector.Laws.{
  Holds, vector_size-Holds, vector_get-Holds, vector_push_back-Holds, vector_erase-Holds,
}
use file_system_server.Server.Names.{find_name, index_of, add_file_to_list, remove_file_from_list}

-- The index of the first name that is equal.
abbrev pub position : List ℕ → List (List ℕ) → Option ℕ
position name [] = none
position name (x ∷ xs) =
    if str_eq x name
    then some 0
    else elim (position name xs) [ none ↦ none | some i ↦ some (suc i) ]

abbrev pub shift : ℕ → Option ℕ → Option ℕ
shift k none = none
shift k (some i) = some (k + i)

abbrev pub NotIn : List ℕ → List (List ℕ) → Type 0
NotIn name [] = Unit
NotIn name (x ∷ xs) = (x ≢ name) × NotIn name xs

abbrev pub IsIn : List ℕ → List (List ℕ) → Type 0
IsIn name [] = ⊥
IsIn name (x ∷ xs) = (x ≡ name) ⊎ IsIn name xs

-- No name twice.
abbrev pub NoRepeat : List (List ℕ) → Type 0
NoRepeat [] = Unit
NoRepeat (x ∷ xs) = NotIn x xs × NoRepeat xs

-- What the list is after a name is added and after one is removed.
abbrev pub inserted : List ℕ → List (List ℕ) → List (List ℕ)
inserted name [] = name ∷ []
inserted name (x ∷ xs) = if str_eq x name then x ∷ xs else x ∷ inserted name xs

abbrev pub removed : List ℕ → List (List ℕ) → List (List ℕ)
removed name [] = []
removed name (x ∷ xs) = if str_eq x name then xs else x ∷ removed name xs

pub at_head :
    (i : ℕ) (xs ys : List (List ℕ)) {y : List ℕ} → drop i xs ≡ y ∷ ys → get_elem? xs i ≡ some y
at_head zero [] ys e = cc
at_head zero (x ∷ xs) ys e = ground arith
at_head (suc i) [] ys e = cc
at_head (suc i) (x ∷ xs) ys e = at_head i xs ys e

pub at_tail :
    (i : ℕ) (xs ys : List (List ℕ)) {y : List ℕ} → drop i xs ≡ y ∷ ys → drop (suc i) xs ≡ ys
at_tail zero [] ys e = cc
at_tail zero (x ∷ xs) ys e = ground arith
at_tail (suc i) [] ys e = cc
at_tail (suc i) (x ∷ xs) ys e = at_tail i xs ys e

find_name-position :
    (i : ℕ) (v : Vector (List ℕ)) (name : List ℕ) (ys xs : List (List ℕ))
    → Holds v xs
    → drop i xs ≡ ys
    → find_name (length ys) i v name ≡ shift i (position name ys)
unfolding find_name
find_name-position i v name [] xs h e = refl
find_name-position i v name (y ∷ ys) xs h e =
    let here : vector_get v i ≡ some y = vector_get-Holds i h ∙ at_head i xs ys e in
    let next =
      find_name-position (i + 1) v name ys xs h
        (ap (λ k. drop k xs) {x = i + 1} {y = suc i} (omega arith) ∙ at_tail i xs ys e) in
    rw here (ground (arith, next))

-- The loop over the vector finds the first equal name.
pub index_of-position :
    (v : Vector (List ℕ)) (name : List ℕ) (xs : List (List ℕ))
    → Holds v xs
    → index_of v name ≡ position name xs
unfolding index_of
index_of-position v name xs h =
    ap (λ k. find_name k 0 v name) (vector_size-Holds h)
    ∙ find_name-position 0 v name xs xs h refl
    ∙ shift_zero (position name xs)
  where
    shift_zero : (o : Option ℕ) → shift 0 o ≡ o
    shift_zero none = refl
    shift_zero (some i) = ap some (omega arith)

position-none :
    (name : List ℕ) (xs : List (List ℕ))
    → position name xs ≡ none
    → inserted name xs ≡ xs ++ name ∷ []
position-none name [] e = refl
position-none name (x ∷ xs) e = ground (arith, position-none name xs)

position-some :
    (name : List ℕ) (xs : List (List ℕ)) (i : ℕ)
    → position name xs ≡ some i
    → (inserted name xs ≡ xs) × (removed name xs ≡ take i xs ++ drop (suc i) xs) × (i < length xs)
position-some name [] i e = cc
position-some name (x ∷ xs) zero e = elim (Option-cases (position name xs)) [
  | inl n ↦ ground (arith, n)
  | inr (j, s) ↦ ground (arith, s)
]
position-some name (x ∷ xs) (suc i) e = elim (Option-cases (position name xs)) [
  | inl n ↦ ground (arith, n)
  | inr (j, s) ↦ ground (arith, s, position-some name xs i)
]

removed-none : (name : List ℕ) (xs : List (List ℕ)) → position name xs ≡ none → removed name xs ≡ xs
removed-none name [] e = refl
removed-none name (x ∷ xs) e = ground (arith, removed-none name xs)

NotIn-removed : (name n : List ℕ) (xs : List (List ℕ)) → NotIn n xs → NotIn n (removed name xs)
NotIn-removed name n [] h = tt
NotIn-removed name n (x ∷ xs) h = ground (arith, NotIn-removed name n xs)

removed-NotIn : (name : List ℕ) (xs : List (List ℕ)) → NoRepeat xs → NotIn name (removed name xs)
removed-NotIn name [] h = tt
removed-NotIn name (x ∷ xs) h = elim (Bool-cases (str_eq x name)) [
  | inl same ↦ rw same (rw (← str_eq_sound x name same) h.0)
  | inr other ↦ rw other ((λ e. differs x name other e), removed-NotIn name xs h.1)
]
  where
    differs : (x name : List ℕ) → str_eq x name ≡ false → x ≡ name → ⊥
    differs x name o e = true-false (sym (str_eq_refl name) ∙ (rw e at o))

NoRepeat-removed : (name : List ℕ) (xs : List (List ℕ)) → NoRepeat xs → NoRepeat (removed name xs)
NoRepeat-removed name [] h = tt
NoRepeat-removed name (x ∷ xs) h = ground (arith, NoRepeat-removed name xs, NotIn-removed name x xs)

IsIn-inserted : (name : List ℕ) (xs : List (List ℕ)) → IsIn name (inserted name xs)
IsIn-inserted name [] = inl refl
IsIn-inserted name (x ∷ xs) = ground (arith, str_eq_sound x name, IsIn-inserted name xs)

NotIn-inserted :
    (name n : List ℕ) (xs : List (List ℕ)) → name ≢ n → NotIn n xs → NotIn n (inserted name xs)
NotIn-inserted name n [] d h = (d, tt)
NotIn-inserted name n (x ∷ xs) d h = ground (arith, NotIn-inserted name n xs d)

NoRepeat-inserted : (name : List ℕ) (xs : List (List ℕ)) → NoRepeat xs → NoRepeat (inserted name xs)
NoRepeat-inserted name [] h = (tt, tt)
NoRepeat-inserted name (x ∷ xs) h = elim (Bool-cases (str_eq x name)) [
  | inl same ↦ rw same h
  | inr other ↦ rw other (
    NotIn-inserted name x xs (λ e. true-false (sym (str_eq_refl x) ∙ (rw e at other))) h.0,
    NoRepeat-inserted name xs h.1,
  )
]

-- What the list holds, each name once.
pub record Stores (v : Vector (List ℕ)) (xs : List (List ℕ)) : Type 0 where
  pub holds : Holds v xs
  pub once : NoRepeat xs

-- With memory, on a list that has each name once, `add_file_to_list` keeps the order of the old names, puts a new one at the end, adds no
-- name twice, and the name is in the list after it.
pub add_file_to_list-Stores :
    (v : Vector (List ℕ)) (name : List ℕ) {xs : List (List ℕ)}
    → Stores v xs
    → Stores (add_file_to_list true v name) (inserted name xs) × IsIn name (inserted name xs)
unfolding add_file_to_list
add_file_to_list-Stores v name {xs} s = elim (Option-cases (position name xs)) [
  | inl n ↦
      rw (index_of-position v name xs s.holds ∙ n, add_file_to_list)
        (
          record {
            holds =
                rw (position-none name xs n) (vector_push_back-Holds true name s.holds (inl refl));
            once = NoRepeat-inserted name xs s.once;
          },
          IsIn-inserted name xs,
        )
  | inr (i, e) ↦
      rw (index_of-position v name xs s.holds ∙ e, add_file_to_list)
        (
          record {
            holds = rw (position-some name xs i e).0 s.holds;
            once = NoRepeat-inserted name xs s.once;
          },
          IsIn-inserted name xs,
        )
]

-- From a list that has each name once, `remove_file_from_list` takes the first entry of the name and
-- leaves the others in their order, each once; the name is not in the list afterwards.
pub remove_file_from_list-Stores :
    (v : Vector (List ℕ)) (name : List ℕ) {xs : List (List ℕ)}
    → Stores v xs
    → Stores (remove_file_from_list v name) (removed name xs) × NotIn name (removed name xs)
unfolding remove_file_from_list
remove_file_from_list-Stores v name {xs} s = elim (Option-cases (position name xs)) [
  | inl n ↦
      rw (index_of-position v name xs s.holds ∙ n, remove_file_from_list)
        (
          record {
            holds = rw (removed-none name xs n) s.holds;
            once = NoRepeat-removed name xs s.once;
          },
          removed-NotIn name xs s.once,
        )
  | inr (i, e) ↦
      rw (index_of-position v name xs s.holds ∙ e, remove_file_from_list)
        (
          record {
            holds =
                rw ((position-some name xs i e).1, ← add-one)
                  (vector_erase-Holds i s.holds (position-some name xs i e).2);
            once = NoRepeat-removed name xs s.once;
          },
          removed-NotIn name xs s.once,
        )
]
