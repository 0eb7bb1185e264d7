-- ===== src/Collections/Vector/Laws.antt =====
-- A vector holds a sequence of elements: what each operation of collections.c does to it.
use native.Mathlib.Numerals.{add-one}
use mathlib.Core.List.{map-append}
use file_system_server.Base.{
  ℕ, zero, suc, ◌+◌, ◌-◌, ◌*◌, ◌≤◌, ◌<◌, ◌≡◌, refl, sym, ap, ◌∙◌, Bool, true, false, List, [], ◌∷◌,
  ◌++◌, map, Option, none, some, arith, length, get_elem?, take, drop, replicate, length-append,
  length-set, length-take, length-drop, take-take, drop_all, ap₂, ltb→lt, drop-take, take-append,
  ltb, Bool-cases, inl, inr, append_assoc, min, length-replicate, set-take-suc, get_elem?-take,
  take-append_le, ◌⊎◌, leb, ◌==◌, length-map, map-take, map-drop, append-nil,
}
use file_system_server.Collections.Vector.{
  Vector, vector_create, vector_size, vector_get, vector_push_back, vector_erase, grown,
  append_cell, close_gap, read_cell,
}

-- The vector is well formed and holds exactly `xs`, in order.
pub record Holds {ℓ} {A : Type ℓ} (v : Vector A) (xs : List A) : Type ℓ where
  pub live : take v.size v.cells ≡ map some xs
  pub space : length v.cells ≡ v.capacity
  pub fits : v.size ≤ v.capacity
  pub positive : 0 < v.capacity

module _ {ℓ} {A : Type ℓ} where
  pub vector_create-Holds : Holds {A = A} vector_create []
  unfolding vector_create
  vector_create-Holds = record {
    live = refl;
    space = refl;
    fits = omega arith;
    positive = omega arith;
  }

  cells-length : {v : Vector A} {xs : List A} → Holds v xs → v.size ≤ length v.cells
  cells-length h = omega (arith, h.space, h.fits)

  pub size-Holds : {v : Vector A} {xs : List A} → Holds v xs → v.size ≡ length xs
  size-Holds {v} {xs} h = omega (
    arith,
    h.space,
    h.fits,
    length-take v.size v.cells,
    ap length h.live,
    length-map {A = A} some xs,
  )

  pub vector_size-Holds : {v : Vector A} {xs : List A} → Holds v xs → vector_size v ≡ length xs
  unfolding vector_size
  vector_size-Holds h = size-Holds h

  cell_at : (xs : List A) (i : ℕ) → read_cell (get_elem? (map some xs) i) ≡ get_elem? xs i
  cell_at [] i = refl
  cell_at (x ∷ xs) zero = refl
  cell_at (x ∷ xs) (suc i) = cell_at xs i

  get_elem?_past : (xs : List A) (i : ℕ) → length xs ≤ i → get_elem? xs i ≡ none
  get_elem?_past [] i h = refl
  get_elem?_past (x ∷ xs) zero h = absurd (omega arith)
  get_elem?_past (x ∷ xs) (suc i) h = get_elem?_past xs i (omega arith)

  -- `vector_get` reads the element at the index, and gives the null pointer past the end.
  pub vector_get-Holds :
      {v : Vector A} {xs : List A} (i : ℕ) → Holds v xs → vector_get v i ≡ get_elem? xs i
  unfolding vector_get
  vector_get-Holds {v} {xs} i h = elim (Bool-cases (leb v.size i)) [
    | inl past ↦ rw past (sym (get_elem?_past xs i (ground (arith, size-Holds h))))
    | inr inside ↦ rw inside (
        ap read_cell
          (sym (get_elem?-take v.size i v.cells (ground arith)) ∙ ap (λ c. get_elem? c i) h.live)
        ∙ cell_at xs i)
  ]

  map-snoc : (xs : List A) (x : A) → map some xs ++ some x ∷ [] ≡ map some (xs ++ x ∷ [])
  map-snoc [] x = refl
  map-snoc (y ∷ xs) x = ap (λ t. some y ∷ t) (map-snoc xs x)

  append_cell-Holds :
      {v : Vector A} {xs : List A} (x : A)
      → Holds v xs
      → v.size < v.capacity
      → Holds (append_cell v x) (xs ++ x ∷ [])
  append_cell-Holds {v} {xs} x h less = record {
    live = rw add-one (
        set-take-suc v.size v.cells (some x) (omega (arith, h.space))
        ∙ ap (λ t. t ++ some x ∷ []) h.live
        ∙ map-snoc xs x);
    space = length-set v.cells v.size (some x) ∙ h.space;
    fits = omega arith;
    positive = h.positive;
  }

  grown-Holds : {v : Vector A} {xs : List A} → Holds v xs → Holds (grown v) xs
  grown-Holds {v} {xs} h = record {
    live = take-append_le v.size v.cells _ (cells-length h) ∙ h.live;
    space = omega (
      arith,
      length-append v.cells (replicate (v.capacity * 2 - v.capacity) none),
      length-replicate {A = Option A} (v.capacity * 2 - v.capacity) none,
      h.space,
    );
    fits = omega (arith, h.fits);
    positive = omega (arith, h.positive);
  }

  -- With room to grow, or a free slot, `vector_push_back` adds the element at the end.
  pub vector_push_back-Holds :
      {v : Vector A} {xs : List A} (room : Bool) (x : A)
      → Holds v xs
      → (room ≡ true) ⊎ (v.size < v.capacity)
      → Holds (vector_push_back room v x) (xs ++ x ∷ [])
  unfolding vector_push_back
  vector_push_back-Holds {v} room x h ok = elim (Bool-cases (v.size == v.capacity)) [
    | inl full ↦
        let r : room ≡ true = ground (arith, full) in
        rw (full, r) (append_cell-Holds x (grown-Holds h) (omega (arith, h.fits, h.positive)))
    | inr free ↦ rw free (append_cell-Holds x h (ground (arith, h.fits)))
  ]

  -- Where `realloc` fails on a full vector, the element is dropped and the vector is unchanged.
  pub vector_push_back_full :
      (v : Vector A) (x : A) → v.size ≡ v.capacity → vector_push_back false v x ≡ v
  unfolding vector_push_back
  vector_push_back_full v x e = ground arith

  head_cells :
      {v : Vector A} {xs : List A} (i : ℕ)
      → Holds v xs
      → i ≤ v.size
      → take i v.cells ≡ map some (take i xs)
  head_cells {v} {xs} i h le =
      ap (λ k. take k v.cells) {x = i} {y = min i v.size} (omega arith)
      ∙ sym (take-take i v.size v.cells)
      ∙ ap (take i) h.live
      ∙ sym (map-take some i xs)

  tail_cells :
      {v : Vector A} {xs : List A} (i : ℕ)
      → Holds v xs
      → take (v.size - i) (drop i v.cells) ≡ map some (drop i xs)
  tail_cells {v} {xs} i h =
      sym (drop-take i v.size v.cells) ∙ ap (drop i) h.live ∙ sym (map-drop some i xs)

  take_two :
      (n : ℕ) (ps qs rs : List (Option A))
      → length ps + length qs ≡ n
      → take n (ps ++ (qs ++ rs)) ≡ ps ++ qs
  take_two n ps qs rs e =
      ap (λ t. take n t) (sym (append_assoc ps qs rs))
      ∙ ap (λ k. take k ((ps ++ qs) ++ rs)) (sym e ∙ sym (length-append ps qs))
      ∙ take-append (ps ++ qs) rs

  gap_live :
      {v : Vector A} {xs : List A} (i : ℕ)
      → Holds v xs
      → i < v.size
      → take (v.size - 1) (close_gap v i) ≡ map some (take i xs ++ drop (i + 1) xs)
  gap_live {v} {xs} i h less = elim (Bool-cases (ltb (i + 1) v.size)) [
    | inl inner ↦ rw inner (
        take_two (v.size - 1) (take i v.cells) (take (v.size - i - 1) (drop (i + 1) v.cells))
          (drop (v.size - 1) v.cells)
          (omega (
            arith,
            ltb→lt (i + 1) v.size inner,
            cells-length h,
            length-take i v.cells,
            length-take (v.size - i - 1) (drop (i + 1) v.cells),
            length-drop (i + 1) v.cells,
          ))
        ∙ ap₂ ◌++◌ (head_cells i h (omega arith)) (
            ap (λ k. take k (drop (i + 1) v.cells)) {x = v.size - i - 1} {y = v.size - (i + 1)}
              (omega arith)
            ∙ tail_cells (i + 1) h)
        ∙ sym (map-append some (take i xs) (drop (i + 1) xs)))
    | inr last ↦
        let e : v.size - 1 ≡ i = ground arith in
        rw (last, e, drop_all (i + 1) xs (omega (arith, size-Holds h)), append-nil)
          (head_cells i h (omega arith))
  ]

  gap_length :
      {v : Vector A} {xs : List A} (i : ℕ)
      → Holds v xs
      → i < v.size
      → length (close_gap v i) ≡ v.capacity
  gap_length {v} {xs} i h less = elim (Bool-cases (ltb (i + 1) v.size)) [
    | inl inner ↦ rw inner (
        omega (
          arith,
          h.space,
          h.fits,
          length-append (take i v.cells)
              (take (v.size - i - 1) (drop (i + 1) v.cells) ++ drop (v.size - 1) v.cells),
          length-append (take (v.size - i - 1) (drop (i + 1) v.cells)) (drop (v.size - 1) v.cells),
          length-take i v.cells,
          length-take (v.size - i - 1) (drop (i + 1) v.cells),
          length-drop (i + 1) v.cells,
          length-drop (v.size - 1) v.cells,
        ))
    | inr last ↦ rw last h.space
  ]

  -- `vector_erase` removes the element at an index below the size and closes the gap.
  pub vector_erase-Holds :
      {v : Vector A} {xs : List A} (i : ℕ)
      → Holds v xs
      → i < length xs
      → Holds (vector_erase v i) (take i xs ++ drop (i + 1) xs)
  unfolding vector_erase
  vector_erase-Holds {v} {xs} i h less =
      let inside : i < v.size = omega (arith, size-Holds h) in
      rw (lt→not_leb inside) (record {
        live = gap_live i h inside;
        space = gap_length i h inside;
        fits = omega (arith, h.fits);
        positive = h.positive;
      })
    where
      lt→not_leb : i < v.size → leb v.size i ≡ false
      lt→not_leb p = ground arith

  -- Past the end `vector_erase` does nothing.
  pub vector_erase_past : (v : Vector A) (i : ℕ) → v.size ≤ i → vector_erase v i ≡ v
  unfolding vector_erase
  vector_erase_past v i h = ground arith
