-- ===== src/Os/Descriptors.antt =====
-- The open descriptors, call behind call.
use file_system_server.Base.{
  ℕ, sym, ap, ◌∙◌, inl, inr, Bool, true, false, Option, none, some, ◌==◌, ==_iff, Bool-cases,
  if◌then◌else◌,
}
use file_system_server.Os.Kernel.{Same, Opens, Closes, Opened}

module _ {World : Type 0} (is_open : World → ℕ → Bool) where
  pub Same-then : (a b c : World) → Same is_open a b → Same is_open b c → Same is_open a c
  Same-then a b c p q j = q j ∙ p j

  pub Same-Opens :
      (fd : ℕ) (a b c : World) → Same is_open a b → Opens is_open fd b c → Opens is_open fd a c
  Same-Opens fd a b c p (fresh, q) =
      (sym (p fd) ∙ fresh, λ j. q j ∙ ap (λ z. if fd == j then true else z) (p j))

  pub Opens-Same :
      (fd : ℕ) (a b c : World) → Opens is_open fd a b → Same is_open b c → Opens is_open fd a c
  Opens-Same fd a b c (fresh, p) q = (fresh, λ j. q j ∙ p j)

  pub Same-Opened :
      (r : Option ℕ) (a b c : World)
      → Same is_open a b
      → Opened is_open b r c
      → Opened is_open a r c
  Same-Opened none a b c p q = Same-then a b c p q
  Same-Opened (some fd) a b c p q = Same-Opens fd a b c p q

  -- A descriptor that is closed again leaves nothing.
  pub Opens-Closes :
      (fd : ℕ) (a b c : World) → Opens is_open fd a b → Closes is_open fd b c → Same is_open a c
  Opens-Closes fd a b c (fresh, p) q j = elim (Bool-cases (fd == j)) [
    | inl same ↦
        q j
        ∙ ap (λ z. if z then false else is_open b j) same
        ∙ sym fresh
        ∙ ap (is_open a) ((==_iff fd j).0 same)
    | inr other ↦
        q j
        ∙ ap (λ z. if z then false else is_open b j) other
        ∙ p j
        ∙ ap (λ z. if z then true else is_open a j) other
  ]

  -- Two descriptors closed in the order in which they were opened.
  pub Opens-Closes-in_order :
      (fd gd : ℕ) (a b c d e : World)
      → Opens is_open fd a b
      → Opens is_open gd b c
      → Closes is_open fd c d
      → Closes is_open gd d e
      → Same is_open a e
  Opens-Closes-in_order fd gd a b c d e (fresh_f, p) (fresh_g, q) r s j =
      elim (Bool-cases (gd == j)) [
        | inl g ↦ elim (Bool-cases (fd == j)) [
          | inl f ↦ rw (s j, g) (sym fresh_f ∙ ap (is_open a) ((==_iff fd j).0 f))
          | inr f ↦
              s j
              ∙ ap (λ z. if z then false else is_open d j) g
              ∙ sym fresh_g
              ∙ ap (is_open b) ((==_iff gd j).0 g)
              ∙ p j
              ∙ ap (λ z. if z then true else is_open a j) f
        ]
        | inr g ↦ elim (Bool-cases (fd == j)) [
          | inl f ↦
              s j
              ∙ ap (λ z. if z then false else is_open d j) g
              ∙ r j
              ∙ ap (λ z. if z then false else is_open c j) f
              ∙ sym fresh_f
              ∙ ap (is_open a) ((==_iff fd j).0 f)
          | inr f ↦
              s j
              ∙ ap (λ z. if z then false else is_open d j) g
              ∙ r j
              ∙ ap (λ z. if z then false else is_open c j) f
              ∙ q j
              ∙ ap (λ z. if z then true else is_open b j) g
              ∙ p j
              ∙ ap (λ z. if z then true else is_open a j) f
        ]
      ]
