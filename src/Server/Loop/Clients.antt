-- ===== src/Server/Loop/Clients.antt =====
-- The clients in the table of connections, under a change of one entry.
use file_system_server.Base.{
  none-some, some_eq, ℕ, ◌≡◌, refl, sym, subst, ap, ◌∙◌, inl, inr, true, false, Option, none, some,
  ◌==◌, ==_refl, ==_iff, Bool-cases, if◌then◌else◌,
}
use file_system_server.Collections.Dictionary.{
  Dictionary, dictionary_get, dictionary_set, dictionary_remove,
}
use file_system_server.Collections.Dictionary.Laws.{
  IsDictionary, dictionary_get-set, dictionary_get-remove,
}
use file_system_server.Server.State.{Client}
use file_system_server.Server.Invariant.{Watches, InBounds}
use file_system_server.Server.Loop.{update}

-- A client in the table stands under its descriptor, is watched for what its state waits for, and its
-- buffers are within their bounds.
pub record IsClient (interests : ℕ → Option ℕ) (fd : ℕ) (c : Client) : Type 0 where
  pub own : c.fd ≡ fd
  pub watched : Watches false c.state (interests fd)
  pub bounds : InBounds c

abbrev pub Clients : Dictionary Client → (ℕ → Option ℕ) → Type 0
Clients table interests =
    (fd : ℕ) (c : Client) → dictionary_get table fd ≡ some c → IsClient interests fd c

pub update_other :
    (f : ℕ → Option ℕ) (k j : ℕ) (i : Option ℕ) → (k == j) ≡ false → update f k i j ≡ f j
update_other f k j i e = rw e refl

update_same : (f : ℕ → Option ℕ) (k : ℕ) (i : Option ℕ) → update f k i k ≡ i
update_same f k i = rw (==_refl k) refl

-- Whatever happens to one descriptor, the clients of the others stand as before.
others-IsClient :
    (f : ℕ → Option ℕ) (k j : ℕ) (i : Option ℕ) (c : Client)
    → (k == j) ≡ false
    → IsClient f j c
    → IsClient (update f k i) j c
others-IsClient f k j i c e h = record {
  own = h.own;
  watched = subst (Watches false c.state) (sym (update_other f k j i e)) h.watched;
  bounds = h.bounds;
}

pub set-Clients :
    (table : Dictionary Client) (f : ℕ → Option ℕ) (k : ℕ) (i : Option ℕ) (c : Client)
    → Clients table f
    → c.fd ≡ k
    → Watches false c.state i
    → InBounds c
    → Clients (dictionary_set true table k c) (update f k i)
set-Clients table f k i c all own w b j c' h = elim (Bool-cases (k == j)) [
  | inl same ↦
      let e : k ≡ j = (==_iff k j).0 same in
      let is : c ≡ c' = some_eq (
        sym (
          dictionary_get-set table k j c
          ∙ ap (λ z. if z then some c else dictionary_get table j) same)
        ∙ h) in
      subst (λ z. IsClient (update f k i) j z) is
        (subst (λ z. IsClient (update f k i) z c) e
          (record {
            own = own;
            watched = subst (Watches false c.state) (sym (update_same f k i)) w;
            bounds = b;
          }))
  | inr other ↦ others-IsClient f k j i c' other (
      all j c' (
        sym (
          dictionary_get-set table k j c
          ∙ ap (λ z. if z then some c else dictionary_get table j) other)
        ∙ h))
]

pub remove-Clients :
    (table : Dictionary Client) (f : ℕ → Option ℕ) (k : ℕ) (i : Option ℕ)
    → IsDictionary table
    → Clients table f
    → Clients (dictionary_remove table k) (update f k i)
remove-Clients table f k i d all j c h = elim (Bool-cases (k == j)) [
  | inl same ↦ absurd (
      none-some (
        sym (
          dictionary_get-remove table k j d
          ∙ ap (λ z. if z then none else dictionary_get table j) same)
        ∙ h))
  | inr other ↦ others-IsClient f k j i c other (
      all j c (
        sym (
          dictionary_get-remove table k j d
          ∙ ap (λ z. if z then none else dictionary_get table j) other)
        ∙ h))
]
