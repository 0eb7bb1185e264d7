-- ===== src/Os/Writes.antt =====
-- What a write does for each outcome that the socket has in store.
use file_system_server.Base.{
  ℕ, ◌≤◌, ◌<◌, ◌≡◌, refl, ap, subst, ◌∙◌, List, [], ◌∷◌, ◌++◌, arith, length, min, take, take_all,
}
use file_system_server.Os.Types.{
  Send, accepts, interrupts, breaks, Socket, wrote, would_block, write_failed, write_interrupted,
  write, write_next,
}

-- The socket behind a write of `bs`.
abbrev pub after_write : Socket → List Send → List ℕ → Socket
after_write s rest bs = record s { outcomes = rest; sent = s.sent ++ bs }

wrote_min :
    (bs : List ℕ) (s : Socket) (k n : ℕ) (rest : List Send)
    → s.outcomes ≡ accepts k ∷ rest
    → min k (length bs) ≡ n
    → write bs s ≡ wrote n (after_write s rest (take n bs))
unfolding write
wrote_min bs s k n rest e h =
    ap (λ o. write_next bs o s) e ∙ ap (λ j. wrote j (after_write s rest (take j bs))) h

-- A socket that has room takes all of it.
pub write_whole :
    (bs : List ℕ) (s : Socket) (k : ℕ) (rest : List Send)
    → s.outcomes ≡ accepts k ∷ rest
    → length bs ≤ k
    → write bs s ≡ wrote (length bs) (after_write s rest bs)
write_whole bs s k rest e h =
    wrote_min bs s k (length bs) rest e (omega arith)
    ∙ ap (λ t. wrote (length bs) (after_write s rest t)) (take_all (length bs) bs (omega arith))

-- One with less room takes a first part.
pub write_part :
    (bs : List ℕ) (s : Socket) (k : ℕ) (rest : List Send)
    → s.outcomes ≡ accepts k ∷ rest
    → k < length bs
    → write bs s ≡ wrote k (after_write s rest (take k bs))
write_part bs s k rest e h = wrote_min bs s k k rest e (omega arith)

pub write_full : (bs : List ℕ) (s : Socket) → s.outcomes ≡ [] → write bs s ≡ would_block s
unfolding write
write_full bs s e = ap (λ o. write_next bs o s) e

-- Each write takes a byte at least, until the socket's buffer is full.
abbrev pub IsTaking : List Send → Type 0
IsTaking [] = Unit
IsTaking (accepts k ∷ rest) = (0 < k) × IsTaking rest
IsTaking (interrupts ∷ rest) = ⊥
IsTaking (breaks ∷ rest) = ⊥

-- The ways in which a write goes.
pub data WriteOutcome (bs : List ℕ) (s : Socket) : Type 0 where
  taken :
      (n : ℕ) (rest : List Send)
      → write bs s ≡ wrote n (after_write s rest (take n bs))
      → n ≤ length bs
      → length rest < length s.outcomes
      → (IsTaking s.outcomes → 0 < length bs → (0 < n) × IsTaking rest)
      → WriteOutcome bs s
  blocked : write bs s ≡ would_block s → s.outcomes ≡ [] → WriteOutcome bs s
  refused :
      (s' : Socket)
      → write bs s ≡ write_failed s'
      → s'.sent ≡ s.sent
      → (IsTaking s.outcomes → ⊥)
      → WriteOutcome bs s
  signalled :
      (s' : Socket)
      → write bs s ≡ write_interrupted s'
      → s'.sent ≡ s.sent
      → (IsTaking s.outcomes → ⊥)
      → WriteOutcome bs s

pub write_cases : (bs : List ℕ) (s : Socket) → WriteOutcome bs s
unfolding write
write_cases bs s = go s.outcomes refl
  where
    go : (o : List Send) → s.outcomes ≡ o → WriteOutcome bs s
    go [] e = blocked (ap (λ o. write_next bs o s) e) e
    go (accepts k ∷ rest) e =
        taken (min k (length bs)) rest (ap (λ o. write_next bs o s) e) (omega arith)
          (omega (arith, ap length e))
          (λ h pos.
            let t : (0 < k) × IsTaking rest = subst IsTaking e h in (omega (arith, t.0), t.1))
    go (interrupts ∷ rest) e =
        signalled _ (ap (λ o. write_next bs o s) e) refl (λ h. subst IsTaking e h)
    go (breaks ∷ rest) e = refused _ (ap (λ o. write_next bs o s) e) refl (λ h. subst IsTaking e h)
