-- ===== src/Server/Listing/Contents.antt =====
-- What `build_list_buffer` puts into its buffer, and that it stays inside it.
use file_system_server.Base.{
  ℕ, suc, ◌+◌, ◌-◌, ◌≡◌, refl, sym, ap, ap₂, ◌∙◌, true, false, List, [], ◌∷◌, ◌++◌, some, arith,
  length, drop, replicate, set_range, set_range-append, drop-replicate, length-replicate,
  length-append, newline, to_bytes, length-to_bytes, ltb, append-nil, append_assoc,
}
use file_system_server.Collections.Vector.{Vector, vector_get}
use file_system_server.Collections.Vector.Laws.{Holds, vector_size-Holds, vector_get-Holds}
use file_system_server.Server.State.{size_len}
use file_system_server.Server.Names.Laws.{at_head, at_tail}
use file_system_server.Server.Listing.{total_data_size, fill_list, build_list_buffer}

-- The names with a newline between each two.
abbrev pub joined : List (List ℕ) → List ℕ
joined [] = []
joined (x ∷ []) = x
joined (x ∷ y ∷ ys) = x ++ newline ∷ joined (y ∷ ys)

vector_get-drop :
    {v : Vector (List ℕ)} {xs : List (List ℕ)} (i : ℕ) (y : List ℕ) (ys : List (List ℕ))
    → Holds v xs
    → drop i xs ≡ y ∷ ys
    → vector_get v i ≡ some y
vector_get-drop {v} {xs} i y ys h e = vector_get-Holds i h ∙ at_head i xs ys e

drop-next :
    (i : ℕ) (xs : List (List ℕ)) (y : List ℕ) (ys : List (List ℕ))
    → drop i xs ≡ y ∷ ys
    → drop (i + 1) xs ≡ ys
drop-next i xs y ys e =
    ap (λ k. drop k xs) {x = i + 1} {y = suc i} (omega arith) ∙ at_tail i xs ys e

total_data_size-joined :
    (i count : ℕ) (v : Vector (List ℕ)) (ys xs : List (List ℕ))
    → Holds v xs
    → drop i xs ≡ ys
    → i + length ys ≡ count
    → total_data_size (length ys) i count v ≡ length (joined ys)
unfolding total_data_size
total_data_size-joined i count v [] xs h e n = refl
total_data_size-joined i count v (y ∷ []) xs h e n =
    rw (vector_get-drop i y [] h e, last) (omega arith)
  where
    last : ltb i (count - 1) ≡ false
    last = ground arith
total_data_size-joined i count v (y ∷ z ∷ ys) xs h e n =
    rw (vector_get-drop i y (z ∷ ys) h e, more)
      (omega (
        arith,
        length-append y (newline ∷ joined (z ∷ ys)),
        total_data_size-joined (i + 1) count v (z ∷ ys) xs h (drop-next i xs y (z ∷ ys) e)
            (omega arith),
      ))
  where
    more : ltb i (count - 1) ≡ true
    more = ground arith

-- A copy of a text into the zeros behind what is written.
copy_zeros :
    (pre bs : List ℕ) (k : ℕ)
    → set_range (pre ++ replicate (length bs + k) 0) (length pre) bs ≡ (pre ++ bs) ++ replicate k 0
copy_zeros pre bs k =
    set_range-append pre (replicate (length bs + k) 0) bs
      (omega (arith, length-replicate {A = ℕ} (length bs + k) 0))
    ∙ ap (λ t. (pre ++ bs) ++ t)
        (drop-replicate {A = ℕ} (length bs) (length bs + k) 0
          ∙ ap (λ j. replicate j 0) (omega arith))

-- A name and the newline behind it.
two_copied :
    (pre y rest : List ℕ)
    → set_range
        (set_range (pre ++ replicate (length (y ++ newline ∷ rest)) 0) (length pre) y)
        (length pre + length y)
        (newline ∷ [])
      ≡ (pre ++ y ++ newline ∷ []) ++ replicate (length rest) 0
two_copied pre y rest =
    ap
      (λ k.
        set_range (set_range (pre ++ replicate k 0) (length pre) y) (length pre + length y)
          (newline ∷ []))
      (length-append y (newline ∷ rest))
    ∙ ap (λ b. set_range b (length pre + length y) (newline ∷ []))
        (copy_zeros pre y (suc (length rest)))
    ∙ ap (λ k. set_range ((pre ++ y) ++ replicate (suc (length rest)) 0) k (newline ∷ []))
        (sym (length-append pre y))
    ∙ set_range-append (pre ++ y) (replicate (suc (length rest)) 0) (newline ∷ []) (omega arith)

fill_list_more :
    (rounds i count : ℕ) (v : Vector (List ℕ)) (buffer : List ℕ) (offset : ℕ) (name : List ℕ)
    → vector_get v i ≡ some name
    → ltb i (count - 1) ≡ true
    → fill_list (suc rounds) i count v buffer offset
      ≡ fill_list rounds
          (i + 1)
          count
          v
          (set_range (set_range buffer offset name) (offset + length name) (newline ∷ []))
          (offset + length name + 1)
unfolding fill_list
fill_list_more rounds i count v buffer offset name e more = rw (e, more)

zeros_whole :
    (pre y : List ℕ)
    → set_range (pre ++ replicate (length y) 0) (length pre) y
      ≡ set_range (pre ++ replicate (length y + 0) 0) (length pre) y
zeros_whole pre y = ap (λ k. set_range (pre ++ replicate k 0) (length pre) y) (omega arith)

fill_list-joined :
    (i count : ℕ) (v : Vector (List ℕ)) (ys xs : List (List ℕ)) (pre : List ℕ)
    → Holds v xs
    → drop i xs ≡ ys
    → i + length ys ≡ count
    → fill_list (length ys) i count v (pre ++ replicate (length (joined ys)) 0) (length pre)
      ≡ pre ++ joined ys
unfolding fill_list
fill_list-joined i count v [] xs pre h e n = refl
fill_list-joined i count v (y ∷ []) xs pre h e n =
    rw (vector_get-drop i y [] h e, last)
      (zeros_whole pre y ∙ copy_zeros pre y 0 ∙ append-nil (pre ++ y))
  where
    last : ltb i (count - 1) ≡ false
    last = ground arith
fill_list-joined i count v (y ∷ z ∷ ys) xs pre h e n =
    fill_list_more (length (z ∷ ys)) i count v _ (length pre) y (vector_get-drop i y (z ∷ ys) h e)
      more
    ∙ (ap (λ b. fill_list (length (z ∷ ys)) (i + 1) count v b (length pre + length y + 1))
          (two_copied pre y (joined (z ∷ ys)))
        ∙ ap
            (λ k.
              fill_list (length (z ∷ ys)) (i + 1) count v
                ((pre ++ y ++ newline ∷ []) ++ replicate (length (joined (z ∷ ys))) 0) k)
            (omega (arith, length-append (pre ++ y) (newline ∷ []), length-append pre y))
        ∙ fill_list-joined (i + 1) count v (z ∷ ys) xs (pre ++ y ++ newline ∷ []) h
            (drop-next i xs y (z ∷ ys) e) (omega arith)
        ∙ (append_assoc (pre ++ y) (newline ∷ []) (joined (z ∷ ys))
            ∙ append_assoc pre y (newline ∷ joined (z ∷ ys))))
  where
    more : ltb i (count - 1) ≡ true
    more = ground arith

-- With memory, the buffer of a list is the size of the joined names as eight bytes, then the names
-- with a newline between each two, and its length is that of its contents.
pub build_list_buffer_lem :
    (v : Vector (List ℕ)) (xs : List (List ℕ))
    → Holds v xs
    → build_list_buffer true v
      ≡ some (to_bytes size_len (length (joined xs)) ++ joined xs, size_len + length (joined xs))
unfolding build_list_buffer
build_list_buffer_lem v xs h =
    rw (vector_size-Holds h, total_data_size-joined 0 (length xs) v xs xs h refl (omega arith))
      (ap (λ b. some (b, 8 + length (joined xs))) (start_zeros ∙ filled))
  where
    total : ℕ
    total = length (joined xs)

    head : List ℕ
    head = to_bytes 8 total

    start_zeros :
        fill_list (length xs) 0 (length xs) v (set_range (replicate (8 + total) 0) 0 head) 8
        ≡ fill_list (length xs) 0 (length xs) v (head ++ replicate total 0) (length head)
    start_zeros =
        ap₂ (λ b k. fill_list (length xs) 0 (length xs) v b k)
          (ap (λ k. set_range (replicate (k + total) 0) 0 head) (sym (length-to_bytes 8 total))
            ∙ copy_zeros [] head total)
          (sym (length-to_bytes 8 total))

    filled :
        fill_list (length xs) 0 (length xs) v (head ++ replicate total 0) (length head)
        ≡ head ++ joined xs
    filled = fill_list-joined 0 (length xs) v xs xs head h refl (omega arith)
