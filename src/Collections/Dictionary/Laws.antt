-- ===== src/Collections/Dictionary/Laws.antt =====
-- The dictionary behaves as a finite map on its keys, as long as no key stands in it twice.
use file_system_server.Base.{
  ℕ, ◌≤◌, ◌<◌, ◌≡◌, refl, ◌≢◌, inl, inr, Bool, true, List, [], ◌∷◌, ◌++◌, none, some, arith, length,
  length-append, ◌==◌, if◌then◌else◌, Option-cases, Bool-cases, ==_iff,
}
use file_system_server.Collections.Dictionary.{
  Entry, Dictionary, dictionary_create, find_value, replace_value, append_entry, dictionary_set,
  dictionary_get, remove_entry, dictionary_remove,
}

module _ {ℓ} {A : Type ℓ} where
  abbrev pub Absent : ℕ → List (Entry A) → Type 0
  Absent k [] = Unit
  Absent k (e ∷ es) = (e.key ≢ k) × Absent k es

  -- No key twice.
  abbrev pub Distinct : List (Entry A) → Type 0
  Distinct [] = Unit
  Distinct (e ∷ es) = Absent e.key es × Distinct es

  -- What every operation keeps: the entries fit the array, and each key has one entry.
  pub record IsDictionary (d : Dictionary A) : Type 0 where
    pub fits : length d.entries ≤ d.capacity
    pub positive : 0 < d.capacity
    pub distinct : Distinct d.entries

  pub dictionary_create-IsDictionary : IsDictionary dictionary_create
  unfolding dictionary_create
  dictionary_create-IsDictionary = record {
    fits = omega arith;
    positive = omega arith;
    distinct = tt;
  }

  find-Absent : (k : ℕ) (es : List (Entry A)) → Absent k es → find_value k es ≡ none
  unfolding find_value
  find-Absent k [] a = refl
  find-Absent k (e ∷ es) a = ground (arith, find-Absent k es)

  find-replace :
      (k j : ℕ) (v : A) (es : List (Entry A)) {es' : List (Entry A)}
      → replace_value k v es ≡ some es'
      → find_value j es' ≡ (if k == j then some v else find_value j es)
  unfolding find_value replace_value
  find-replace k j v [] h = cc
  find-replace k j v (e ∷ es) h = elim (Option-cases (replace_value k v es)) [
    | inl n ↦ ground (arith, n)
    | inr (rest, s) ↦ ground (arith, s, find-replace k j v es s)
  ]

  replace_none : (k : ℕ) (v : A) (es : List (Entry A)) → replace_value k v es ≡ none → Absent k es
  unfolding replace_value
  replace_none k v [] h = tt
  replace_none k v (e ∷ es) h = elim (Option-cases (replace_value k v es)) [
    | inl n ↦ ground (arith, n, replace_none k v es)
    | inr (rest, s) ↦ ground (arith, s)
  ]

  find-append :
      (k j : ℕ) (v : A) (es : List (Entry A))
      → Absent k es
      → find_value j (es ++ record { key = k; value = v } ∷ [])
        ≡ (if k == j then some v else find_value j es)
  unfolding find_value
  find-append k j v [] a = refl
  find-append k j v (e ∷ es) a = ground (arith, find-append k j v es)

  Absent-replace :
      (k j : ℕ) (v : A) (es : List (Entry A)) {es' : List (Entry A)}
      → replace_value k v es ≡ some es'
      → Absent j es
      → Absent j es'
  unfolding replace_value
  Absent-replace k j v [] h a = cc
  Absent-replace k j v (e ∷ es) h a = elim (Option-cases (replace_value k v es)) [
    | inl n ↦ ground (arith, n)
    | inr (rest, s) ↦ ground (arith, s, Absent-replace k j v es s)
  ]

  Distinct-replace :
      (k : ℕ) (v : A) (es : List (Entry A)) {es' : List (Entry A)}
      → replace_value k v es ≡ some es'
      → Distinct es
      → Distinct es' × (length es' ≡ length es)
  unfolding replace_value
  Distinct-replace k v [] h d = cc
  Distinct-replace k v (e ∷ es) h d = elim (Option-cases (replace_value k v es)) [
    | inl n ↦ ground (arith, n)
    | inr (rest, s) ↦ ground (arith, s, Distinct-replace k v es s, Absent-replace k e.key v es s)
  ]

  Absent-append :
      (k j : ℕ) (v : A) (es : List (Entry A))
      → k ≢ j
      → Absent j es
      → Absent j (es ++ record { key = k; value = v } ∷ [])
  Absent-append k j v [] h a = (h, tt)
  Absent-append k j v (e ∷ es) h a = (a.0, Absent-append k j v es h a.1)

  Distinct-append :
      (k : ℕ) (v : A) (es : List (Entry A))
      → Absent k es
      → Distinct es
      → Distinct (es ++ record { key = k; value = v } ∷ [])
  Distinct-append k v [] a d = (tt, tt)
  Distinct-append k v (e ∷ es) a d =
      (Absent-append k e.key v es (λ q. a.0 (rw q)) d.0, Distinct-append k v es a.1 d.1)

  -- After `dictionary_set` the key has the value and every other key what it had, provided that a full
  -- array can grow.
  pub dictionary_get-set :
      (d : Dictionary A) (k j : ℕ) (v : A)
      → dictionary_get (dictionary_set true d k v) j
        ≡ (if k == j then some v else dictionary_get d j)
  unfolding dictionary_get dictionary_set append_entry
  dictionary_get-set d k j v = elim (Option-cases (replace_value k v d.entries)) [
    | inl n ↦
        rw (n, dictionary_set)
          (ground (arith, find-append k j v d.entries (replace_none k v d.entries n)))
    | inr (es, s) ↦ rw (s, dictionary_set) (find-replace k j v d.entries s)
  ]

  -- `dictionary_set` keeps the invariant, whether or not the array can grow.
  pub dictionary_set-IsDictionary :
      (room : Bool) (d : Dictionary A) (k : ℕ) (v : A)
      → IsDictionary d
      → IsDictionary (dictionary_set room d k v)
  unfolding dictionary_set append_entry
  dictionary_set-IsDictionary room d k v i = elim (Option-cases (replace_value k v d.entries)) [
    | inl n ↦
        rw (n, dictionary_set)
          (ground (
            arith,
            length-append d.entries (record { key = k; value = v } ∷ []),
            Distinct-append k v d.entries (replace_none k v d.entries n),
          ))
    | inr (es, s) ↦
        rw (s, dictionary_set) (ground (arith, Distinct-replace k v d.entries s i.distinct))
  ]

  find-remove_self :
      (k : ℕ) (es : List (Entry A)) → Distinct es → find_value k (remove_entry k es) ≡ none
  unfolding find_value remove_entry
  find-remove_self k [] d = refl
  find-remove_self k (e ∷ es) d = ground (arith, find-remove_self k es, find-Absent e.key es d.0)

  find-remove_ne :
      (k j : ℕ) (es : List (Entry A)) → k ≢ j → find_value j (remove_entry k es) ≡ find_value j es
  unfolding find_value remove_entry
  find-remove_ne k j [] h = refl
  find-remove_ne k j (e ∷ es) h = ground (arith, find-remove_ne k j es)

  -- After `dictionary_remove` the key is gone and every other key has what it had; a key that was not
  -- there changes nothing.
  pub dictionary_get-remove :
      (d : Dictionary A) (k j : ℕ)
      → IsDictionary d
      → dictionary_get (dictionary_remove d k) j ≡ (if k == j then none else dictionary_get d j)
  unfolding dictionary_get dictionary_remove
  dictionary_get-remove d k j i = elim (Bool-cases (k == j)) [
    | inl same ↦ rw (same, ← (==_iff k j).0 same) (find-remove_self k d.entries i.distinct)
    | inr other ↦ rw other (find-remove_ne k j d.entries (ground arith))
  ]

  Absent-remove : (k j : ℕ) (es : List (Entry A)) → Absent j es → Absent j (remove_entry k es)
  unfolding remove_entry
  Absent-remove k j [] a = tt
  Absent-remove k j (e ∷ es) a = ground (arith, Absent-remove k j es)

  Distinct-remove :
      (k : ℕ) (es : List (Entry A))
      → Distinct es
      → Distinct (remove_entry k es) × (length (remove_entry k es) ≤ length es)
  unfolding remove_entry
  Distinct-remove k [] d = (tt, omega arith)
  Distinct-remove k (e ∷ es) d = ground (arith, Distinct-remove k es, Absent-remove k e.key es d.0)

  -- `dictionary_remove` keeps the invariant.
  pub dictionary_remove-IsDictionary :
      (d : Dictionary A) (k : ℕ) → IsDictionary d → IsDictionary (dictionary_remove d k)
  unfolding dictionary_remove
  dictionary_remove-IsDictionary d k i = ground (arith, Distinct-remove k d.entries i.distinct)
