-- ===== src/Os/Reads.antt =====
-- What a read leaves of the arrivals: the bytes still to come, and how many reads they can serve.
use file_system_server.Base.{
  ℕ, zero, suc, ◌+◌, ◌≤◌, ◌<◌, ◌≡◌, refl, ap, List, [], ◌∷◌, ◌++◌, arith, length, take, drop,
  take-append-drop, append_assoc, length-drop, sym, ◌∙◌, length-take,
}
use file_system_server.Os.Types.{
  Recv, bytes, interrupted, broken, closed, got, eof, eintr, eagain, failed, put_back, read_from,
}

-- One more than the number of reads of one byte that can be made before the arrivals run out.
abbrev pub weight : List Recv → ℕ
weight [] = 1
weight (bytes b bs ∷ rest) = suc (length bs) + weight rest
weight (interrupted ∷ rest) = suc (weight rest)
weight (broken ∷ rest) = suc (weight rest)
weight (closed ∷ rest) = suc (weight rest)

pub weight_pos : (rs : List Recv) → 0 < weight rs
weight_pos [] = omega arith
weight_pos (bytes b bs ∷ rest) = omega arith
weight_pos (interrupted ∷ rest) = omega arith
weight_pos (broken ∷ rest) = omega arith
weight_pos (closed ∷ rest) = omega arith

-- All bytes that arrive before the connection fails or ends.
abbrev pub stream : List Recv → List ℕ
stream [] = []
stream (bytes b bs ∷ rest) = b ∷ (bs ++ stream rest)
stream (interrupted ∷ rest) = stream rest
stream (broken ∷ rest) = []
stream (closed ∷ rest) = []

pub stream-put_back :
    (bs : List ℕ) (rest : List Recv) → stream (put_back bs rest) ≡ bs ++ stream rest
unfolding put_back
stream-put_back [] rest = refl
stream-put_back (b ∷ bs) rest = refl

pub weight-put_back :
    (bs : List ℕ) (rest : List Recv) → weight (put_back bs rest) ≡ length bs + weight rest
unfolding put_back
weight-put_back [] rest = omega arith
weight-put_back (b ∷ bs) rest = omega arith

-- How the arrivals stop: there are no more yet, the peer has closed, or the connection fails.
pub data Ending : Type 0 where
  pending : Ending
  shut : Ending
  failing : Ending

abbrev pub ending : List Recv → Ending
ending [] = pending
ending (bytes b bs ∷ rest) = ending rest
ending (interrupted ∷ rest) = ending rest
ending (broken ∷ rest) = failing
ending (closed ∷ rest) = shut

ending-put_back : (bs : List ℕ) (rest : List Recv) → ending (put_back bs rest) ≡ ending rest
unfolding put_back
ending-put_back [] rest = refl
ending-put_back (b ∷ bs) rest = refl

-- The five ways in which a read of at least one byte goes, told by what is still to come.
pub data ReadOutcome (n : ℕ) (rs : List Recv) : Type 0 where
  arrived :
      (b : ℕ) (bs : List ℕ) (rest : List Recv)
      → read_from n rs ≡ got (b ∷ bs) rest
      → b ∷ (bs ++ stream rest) ≡ stream rs
      → suc (length bs) ≤ n
      → weight rest < weight rs
      → ending rest ≡ ending rs
      → ReadOutcome n rs
  resumed :
      (rest : List Recv)
      → read_from n rs ≡ eintr rest
      → stream rest ≡ stream rs
      → weight rest < weight rs
      → ending rest ≡ ending rs
      → ReadOutcome n rs
  ended : read_from n rs ≡ eof rs → stream rs ≡ [] → ending rs ≡ shut → ReadOutcome n rs
  lost :
      (rest : List Recv)
      → read_from n rs ≡ failed rest
      → stream rs ≡ []
      → ending rs ≡ failing
      → ReadOutcome n rs
  waits : read_from n rs ≡ eagain [] → rs ≡ [] → ReadOutcome n rs

pub read_from_cases : (n : ℕ) (rs : List Recv) → 0 < n → ReadOutcome n rs
unfolding read_from
read_from_cases zero rs h = absurd (omega arith)
read_from_cases (suc n) [] h = waits refl refl
read_from_cases (suc n) (bytes b bs ∷ rest) h =
    arrived b (take n bs) (put_back (drop n bs) rest) refl
      (ap (λ t. b ∷ t)
        (ap (λ t. take n bs ++ t) (stream-put_back (drop n bs) rest)
          ∙ sym (append_assoc (take n bs) (drop n bs) (stream rest))
          ∙ ap (λ t. t ++ stream rest) (take-append-drop n bs)))
      (omega (arith, length-take n bs))
      (omega (arith, weight-put_back (drop n bs) rest, length-drop n bs))
      (ending-put_back (drop n bs) rest)
read_from_cases (suc n) (interrupted ∷ rest) h = resumed rest refl refl (omega arith) refl
read_from_cases (suc n) (broken ∷ rest) h = lost rest refl refl refl
read_from_cases (suc n) (closed ∷ rest) h = ended refl refl refl
