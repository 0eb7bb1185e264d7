-- ===== src/Base/Lists.antt =====
-- Lists measured and indexed by native numbers, under the library's names.
use Prim.Native.Nat.{ℕ, zero, suc, ◌+◌, ◌-◌, ◌≤◌, ◌<◌, min}
use mathlib.Core.Path.{◌≡◌, refl, sym, ap, ◌∙◌}
use mathlib.Core.List.{List, [], ◌∷◌, ◌++◌, map, append-nil, append_assoc}
use mathlib.Core.Option.{Option, none, some}
use native.Mathlib.Omega.{arith}

module _ {ℓ} {A : Type ℓ} where
  abbrev pub length : List A → ℕ
  length [] = 0
  length (x ∷ xs) = suc (length xs)

  abbrev pub get_elem? : List A → ℕ → Option A
  get_elem? [] i = none
  get_elem? (x ∷ xs) zero = some x
  get_elem? (x ∷ xs) (suc i) = get_elem? xs i

  -- A write out of bounds changes nothing.
  abbrev pub set : List A → ℕ → A → List A
  set [] i v = []
  set (x ∷ xs) zero v = v ∷ xs
  set (x ∷ xs) (suc i) v = x ∷ set xs i v

  abbrev pub take : ℕ → List A → List A
  take zero xs = []
  take (suc n) [] = []
  take (suc n) (x ∷ xs) = x ∷ take n xs

  abbrev pub drop : ℕ → List A → List A
  drop zero xs = xs
  drop (suc n) [] = []
  drop (suc n) (x ∷ xs) = drop n xs

  abbrev pub replicate : ℕ → A → List A
  replicate zero a = []
  replicate (suc n) a = a ∷ replicate n a

  -- `memcpy` to an offset of an array; what falls behind its end is not written.
  abbrev pub set_range : List A → ℕ → List A → List A
  set_range xs i [] = xs
  set_range xs i (v ∷ vs) = set_range (set xs i v) (suc i) vs

  pub length-append : (xs ys : List A) → length (xs ++ ys) ≡ length xs + length ys
  length-append [] ys = omega arith
  length-append (x ∷ xs) ys = omega (arith, length-append xs ys)

  pub length-set : (xs : List A) (i : ℕ) (v : A) → length (set xs i v) ≡ length xs
  length-set [] i v = refl
  length-set (x ∷ xs) zero v = refl
  length-set (x ∷ xs) (suc i) v = ap suc (length-set xs i v)

  pub length-take : (n : ℕ) (xs : List A) → length (take n xs) ≡ min n (length xs)
  length-take zero xs = omega arith
  length-take (suc n) [] = omega arith
  length-take (suc n) (x ∷ xs) = omega (arith, length-take n xs)

  pub length-drop : (n : ℕ) (xs : List A) → length (drop n xs) ≡ length xs - n
  length-drop zero xs = omega arith
  length-drop (suc n) [] = omega arith
  length-drop (suc n) (x ∷ xs) = omega (arith, length-drop n xs)

  pub take-nil : (n : ℕ) → ◌≡◌ {A = List A} (take n []) []
  take-nil zero = refl
  take-nil (suc n) = refl

  pub drop-nil : (n : ℕ) → ◌≡◌ {A = List A} (drop n []) []
  drop-nil zero = refl
  drop-nil (suc n) = refl

  pub take-append-drop : (n : ℕ) (xs : List A) → take n xs ++ drop n xs ≡ xs
  take-append-drop zero xs = refl
  take-append-drop (suc n) [] = refl
  take-append-drop (suc n) (x ∷ xs) = ap (λ t. x ∷ t) (take-append-drop n xs)

  pub take_all : (n : ℕ) (xs : List A) → length xs ≤ n → take n xs ≡ xs
  take_all zero [] h = refl
  take_all zero (x ∷ xs) h = absurd (omega arith)
  take_all (suc n) [] h = refl
  take_all (suc n) (x ∷ xs) h = ap (λ t. x ∷ t) (take_all n xs (omega arith))

  pub drop_all : (n : ℕ) (xs : List A) → length xs ≤ n → drop n xs ≡ []
  drop_all zero [] h = refl
  drop_all zero (x ∷ xs) h = absurd (omega arith)
  drop_all (suc n) [] h = refl
  drop_all (suc n) (x ∷ xs) h = drop_all n xs (omega arith)

  pub take-append : (xs ys : List A) → take (length xs) (xs ++ ys) ≡ xs
  take-append [] ys = refl
  take-append (x ∷ xs) ys = ap (λ t. x ∷ t) (take-append xs ys)

  pub drop-append : (xs ys : List A) → drop (length xs) (xs ++ ys) ≡ ys
  drop-append [] ys = refl
  drop-append (x ∷ xs) ys = drop-append xs ys

  pub take-append_le : (n : ℕ) (xs ys : List A) → n ≤ length xs → take n (xs ++ ys) ≡ take n xs
  take-append_le zero xs ys h = refl
  take-append_le (suc n) [] ys h = absurd (omega arith)
  take-append_le (suc n) (x ∷ xs) ys h = ap (λ t. x ∷ t) (take-append_le n xs ys (omega arith))

  pub drop-append_le :
      (n : ℕ) (xs ys : List A) → n ≤ length xs → drop n (xs ++ ys) ≡ drop n xs ++ ys
  drop-append_le zero xs ys h = refl
  drop-append_le (suc n) [] ys h = absurd (omega arith)
  drop-append_le (suc n) (x ∷ xs) ys h = drop-append_le n xs ys (omega arith)

  pub drop-drop : (m n : ℕ) (xs : List A) → drop n (drop m xs) ≡ drop (m + n) xs
  drop-drop zero n xs = ap (λ k. drop k xs) (omega arith)
  drop-drop (suc m) n [] = drop-nil n ∙ sym (drop-nil (suc m + n))
  drop-drop (suc m) n (x ∷ xs) = drop-drop m n xs ∙ ap (λ k. drop k (x ∷ xs)) (suc_out m n)
    where
      suc_out : (m n : ℕ) → suc (m + n) ≡ suc m + n
      suc_out m n = omega arith

  pub length-replicate : (n : ℕ) (a : A) → length (replicate n a) ≡ n
  length-replicate zero a = refl
  length-replicate (suc n) a = ap suc (length-replicate n a)

  pub set-take-suc :
      (n : ℕ) (xs : List A) (v : A)
      → n < length xs
      → take (suc n) (set xs n v) ≡ take n xs ++ v ∷ []
  set-take-suc n [] v h = absurd (omega arith)
  set-take-suc zero (x ∷ xs) v h = refl
  set-take-suc (suc n) (x ∷ xs) v h = ap (λ t. x ∷ t) (set-take-suc n xs v (omega arith))

  pub get_elem?-take : (n i : ℕ) (xs : List A) → i < n → get_elem? (take n xs) i ≡ get_elem? xs i
  get_elem?-take zero i xs h = absurd (omega arith)
  get_elem?-take (suc n) i [] h = refl
  get_elem?-take (suc n) zero (x ∷ xs) h = refl
  get_elem?-take (suc n) (suc i) (x ∷ xs) h = get_elem?-take n i xs (omega arith)

  -- A prefix that is longer than the first part.
  pub take-append_two :
      (m n : ℕ) (xs ys : List A) → length xs + m ≡ n → take n (xs ++ ys) ≡ xs ++ take m ys
  take-append_two m n [] ys e = ap (λ k. take k ys) (omega arith)
  take-append_two m zero (x ∷ xs) ys e = absurd (omega arith)
  take-append_two m (suc n) (x ∷ xs) ys e =
      ap (λ t. x ∷ t) (take-append_two m n xs ys (omega arith))

  pub drop-append_two :
      (m n : ℕ) (xs ys : List A) → length xs + m ≡ n → drop n (xs ++ ys) ≡ drop m ys
  drop-append_two m n [] ys e = ap (λ k. drop k ys) (omega arith)
  drop-append_two m zero (x ∷ xs) ys e = absurd (omega arith)
  drop-append_two m (suc n) (x ∷ xs) ys e = drop-append_two m n xs ys (omega arith)

  take_zero : (k : ℕ) (ys : List A) → k ≡ 0 → [] ≡ take k ys
  take_zero k ys e = rw e

  pub take-take : (m n : ℕ) (xs : List A) → take m (take n xs) ≡ take (min m n) xs
  take-take zero n xs = take_zero (min zero n) xs (omega arith)
  take-take (suc m) zero xs = take_zero (min (suc m) zero) xs (omega arith)
  take-take (suc m) (suc n) [] = sym (take-nil (min (suc m) (suc n)))
  take-take (suc m) (suc n) (x ∷ xs) =
      ap (λ t. x ∷ t) (take-take m n xs) ∙ ap (λ k. take k (x ∷ xs)) (suc-min m n)
    where
      suc-min : (m n : ℕ) → suc (min m n) ≡ min (suc m) (suc n)
      suc-min m n = omega arith

  pub drop-take : (m n : ℕ) (xs : List A) → drop m (take n xs) ≡ take (n - m) (drop m xs)
  drop-take zero n xs = ap (λ k. take k xs) (omega arith)
  drop-take (suc m) zero xs = take_zero (zero - suc m) (drop (suc m) xs) (omega arith)
  drop-take (suc m) (suc n) [] = sym (take-nil (suc n - suc m))
  drop-take (suc m) (suc n) (x ∷ xs) = drop-take m n xs ∙ ap (λ k. take k (drop m xs)) (omega arith)

  -- What is left of a range behind its first `k` elements makes up the range with them.
  pub range_step :
      (len from k : ℕ) (xs : List A)
      → take k (take (len - from) (drop from xs)) ++ take (len - (from + k)) (drop (from + k) xs)
        ≡ take (len - from) (drop from xs)
  range_step len from k xs =
      ap (λ t. take k (take (len - from) (drop from xs)) ++ t)
        (ap (λ j. take j (drop (from + k) xs)) {x = len - (from + k)} {y = len - from - k}
            (omega arith)
          ∙ ap (take (len - from - k)) (sym (drop-drop from k xs))
          ∙ sym (drop-take k (len - from) (drop from xs)))
      ∙ take-append-drop k (take (len - from) (drop from xs))

  set-append : (xs zs : List A) (z v : A) → set (xs ++ z ∷ zs) (length xs) v ≡ (xs ++ v ∷ []) ++ zs
  set-append [] zs z v = refl
  set-append (x ∷ xs) zs z v = ap (λ t. x ∷ t) (set-append xs zs z v)

  -- A copy to the end of a first part overwrites the start of the second.
  pub set_range-append :
      (xs zs vs : List A)
      → length vs ≤ length zs
      → set_range (xs ++ zs) (length xs) vs ≡ (xs ++ vs) ++ drop (length vs) zs
  set_range-append xs zs [] h = ap (λ t. t ++ zs) (sym (append-nil xs))
  set_range-append xs [] (v ∷ vs) h = absurd (omega arith)
  set_range-append xs (z ∷ zs) (v ∷ vs) h =
      ap (λ t. set_range t (suc (length xs)) vs) (set-append xs zs z v)
      ∙ ap (λ k. set_range ((xs ++ v ∷ []) ++ zs) k vs) (omega (arith, length-append xs (v ∷ [])))
      ∙ set_range-append (xs ++ v ∷ []) zs vs (omega arith)
      ∙ ap (λ t. t ++ drop (length vs) zs) (append_assoc xs (v ∷ []) vs)

  pub drop-replicate : (m n : ℕ) (a : A) → drop m (replicate n a) ≡ replicate (n - m) a
  drop-replicate zero n a = ap (λ k. replicate k a) (omega arith)
  drop-replicate (suc m) zero a = ap (λ k. replicate k a) {x = zero} (omega arith)
  drop-replicate (suc m) (suc n) a = drop-replicate m n a ∙ ap (λ k. replicate k a) (omega arith)

module _ {ℓ κ} {A : Type ℓ} {B : Type κ} (f : A → B) where
  pub length-map : (xs : List A) → length (map f xs) ≡ length xs
  length-map [] = refl
  length-map (x ∷ xs) = ap suc (length-map xs)

  pub map-take : (n : ℕ) (xs : List A) → map f (take n xs) ≡ take n (map f xs)
  map-take zero xs = refl
  map-take (suc n) [] = refl
  map-take (suc n) (x ∷ xs) = ap (λ t. f x ∷ t) (map-take n xs)

  pub map-drop : (n : ℕ) (xs : List A) → map f (drop n xs) ≡ drop n (map f xs)
  map-drop zero xs = refl
  map-drop (suc n) [] = refl
  map-drop (suc n) (x ∷ xs) = map-drop n xs
