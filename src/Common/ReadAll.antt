-- ===== src/Common/ReadAll.antt =====
-- common.c, `read_all_from_socket`: what it returns for every sequence of arrivals.
use mathlib.Core.Bool.{true, false}
use file_system_server.Base.{
  ℕ, zero, suc, ◌+◌, ◌-◌, ◌≤◌, ◌<◌, ◌≡◌, refl, sym, ap, ◌∙◌, List, [], ◌∷◌, ◌++◌, Option, none,
  some, arith, length, take, drop, ltb, append_assoc, append-nil, length-append, ◌≢◌,
  take-append_two, drop-append_two,
}
use file_system_server.Os.{
  Recv, got, eof, eintr, eagain, failed, read_from, weight, weight_pos, stream, ending, shut,
  pending, arrived, resumed, ended, lost, waits, read_from_cases,
}

-- The loop, with the bytes that are in the buffer. `none` is the result -1; else the result is the
-- number of bytes. The fuel bounds the reads that the arrivals can serve.
unfoldable pub read_all_loop : ℕ → ℕ → List ℕ → List Recv → Option (List ℕ) × List Recv
read_all_loop zero count buffer rs = (none, rs)
read_all_loop (suc fuel) count buffer rs = elim (ltb (length buffer) count) [
  | false ↦ (some buffer, rs)
  | true ↦ elim (read_from (count - length buffer) rs) [
    | got bs rest ↦ read_all_loop fuel count (buffer ++ bs) rest
    | eintr rest ↦ read_all_loop fuel count buffer rest
    | eof rest ↦ (some buffer, rest)
    | eagain rest ↦ (none, rest)
    | failed rest ↦ (none, rest)
  ]
]

unfoldable pub read_all_from_socket : ℕ → List Recv → Option (List ℕ) × List Recv
unfolding read_all_loop
read_all_from_socket count rs = read_all_loop (weight rs) count [] rs

-- What a loop returns that has `want` bytes to go.
record Reads (want : ℕ) (buffer : List ℕ) (rs : List Recv) (out : Option (List ℕ) × List Recv)
    : Type 0 where
  enough :
      want ≤ length (stream rs)
      → (out.0 ≡ some (buffer ++ take want (stream rs)))
        × (stream out.1 ≡ drop want (stream rs))
        × (ending out.1 ≡ ending rs)
  short : length (stream rs) < want → ending rs ≡ shut → out.0 ≡ some (buffer ++ stream rs)
  fails : length (stream rs) < want → ending rs ≢ shut → out.0 ≡ none

-- One more arrival in front.
Reads-arrived :
    (want : ℕ) (buffer bs : List ℕ) (rs rest : List Recv) (out : Option (List ℕ) × List Recv)
    → bs ++ stream rest ≡ stream rs
    → length bs ≤ want
    → ending rest ≡ ending rs
    → Reads (want - length bs) (buffer ++ bs) rest out
    → Reads want buffer rs out
Reads-arrived want buffer bs rs rest out s n same ih = record {
  enough = λ le.
      let e = ih.enough (omega (arith, total)) in
      (
        e.0
            ∙ ap some (
                append_assoc buffer bs (take (want - length bs) (stream rest))
                ∙ ap (λ t. buffer ++ t)
                    (sym (take-append_two (want - length bs) want bs (stream rest) (omega arith))
                      ∙ ap (take want) s)),
        e.1
            ∙ sym (drop-append_two (want - length bs) want bs (stream rest) (omega arith))
            ∙ ap (drop want) s,
        e.2 ∙ same,
      );
  short = λ lt x.
      ih.short (omega (arith, total)) (same ∙ x)
      ∙ ap some (append_assoc buffer bs (stream rest) ∙ ap (λ t. buffer ++ t) s);
  fails = λ lt x. ih.fails (omega (arith, total)) (λ y. x (sym same ∙ y));
}
  where
    total : length bs + length (stream rest) ≡ length (stream rs)
    total = omega (arith, length-append bs (stream rest), ap length s)

Reads-resumed :
    (want : ℕ) (buffer : List ℕ) (rs rest : List Recv) (out : Option (List ℕ) × List Recv)
    → stream rest ≡ stream rs
    → ending rest ≡ ending rs
    → Reads want buffer rest out
    → Reads want buffer rs out
Reads-resumed want buffer rs rest out s same ih = record {
  enough = rw (← s, ← same) ih.enough;
  short = rw (← s, ← same) ih.short;
  fails = rw (← s, ← same) ih.fails;
}

Reads-stopped :
    (want : ℕ) (buffer : List ℕ) (rs rest : List Recv)
    → 0 < want
    → stream rs ≡ []
    → ending rs ≢ shut
    → Reads want buffer rs (none, rest)
Reads-stopped want buffer rs rest h s x = record {
  enough = λ le. absurd (omega (arith, ap length s));
  short = λ lt y. absurd (x y);
  fails = λ lt y. refl;
}

pending_not_shut : {A : Type 0} → pending ≡ shut → A
pending_not_shut e = cc

read_all_loop-Reads :
    (fuel count want : ℕ) (buffer : List ℕ) (rs : List Recv)
    → weight rs ≤ fuel
    → length buffer + want ≡ count
    → Reads want buffer rs (read_all_loop fuel count buffer rs)
unfolding read_all_loop
read_all_loop-Reads zero count want buffer rs w e = absurd (omega (arith, weight_pos rs))
read_all_loop-Reads (suc fuel) count zero buffer rs w e =
    let full : ltb (length buffer) count ≡ false = ground arith in
    rw (full, read_all_loop)
      (record {
        enough = λ le. (ap some (sym (append-nil buffer)), refl, refl);
        short = λ lt x. absurd (omega arith);
        fails = λ lt x. absurd (omega arith);
      })
read_all_loop-Reads (suc fuel) count (suc want) buffer rs w e =
    let short : ltb (length buffer) count ≡ true = ground arith in
    let k : count - length buffer ≡ suc want = omega arith in
    rw (short, k, read_all_loop)
      (elim (read_from_cases (suc want) rs (omega arith)) [
        | arrived b bs rest r s n less same ↦
            rw (r, read_all_loop)
              (Reads-arrived (suc want) buffer (b ∷ bs) rs rest _ s n same (
                read_all_loop-Reads fuel count (suc want - suc (length bs)) (buffer ++ b ∷ bs) rest
                  (omega arith) (omega (arith, length-append buffer (b ∷ bs)))))
        | resumed rest r s less same ↦
            rw (r, read_all_loop)
              (Reads-resumed (suc want) buffer rs rest _ s same
                (read_all_loop-Reads fuel count (suc want) buffer rest (omega arith) e))
        | ended r s x ↦
            rw (r, read_all_loop)
              (record {
                enough = λ le. absurd (omega (arith, ap length s));
                short = λ lt y. rw (s, append-nil);
                fails = λ lt y. absurd (y x);
              })
        | lost rest r s x ↦
            rw (r, read_all_loop)
              (Reads-stopped (suc want) buffer rs rest (omega arith) s (λ y. cc))
        | waits r s ↦
            rw (r, read_all_loop)
              (Reads-stopped (suc want) buffer rs [] (omega arith) (ap stream s)
                (λ y. pending_not_shut (rw s at y)))
      ])

-- If `count` bytes arrive, `read_all_from_socket` returns the first `count`, however they are cut and
-- whatever calls are interrupted, and leaves the bytes behind them and the way the connection ends.
pub read_all_from_socket_enough :
    (count : ℕ) (rs : List Recv)
    → count ≤ length (stream rs)
    → let out = read_all_from_socket count rs in
      (out.0 ≡ some (take count (stream rs)))
      × (stream out.1 ≡ drop count (stream rs))
      × (ending out.1 ≡ ending rs)
unfolding read_all_from_socket
read_all_from_socket_enough count rs =
    (read_all_loop-Reads (weight rs) count count [] rs (omega arith) (omega arith)).enough

-- If the peer closes before `count` bytes, `read_all_from_socket` returns what has arrived.
pub read_all_from_socket_closed :
    (count : ℕ) (rs : List Recv)
    → length (stream rs) < count
    → ending rs ≡ shut
    → (read_all_from_socket count rs).0 ≡ some (stream rs)
unfolding read_all_from_socket
read_all_from_socket_closed count rs =
    (read_all_loop-Reads (weight rs) count count [] rs (omega arith) (omega arith)).short

-- If the connection fails before `count` bytes, or would block, `read_all_from_socket` returns -1.
pub read_all_from_socket_fails :
    (count : ℕ) (rs : List Recv)
    → length (stream rs) < count
    → ending rs ≢ shut
    → (read_all_from_socket count rs).0 ≡ none
unfolding read_all_from_socket
read_all_from_socket_fails count rs =
    (read_all_loop-Reads (weight rs) count count [] rs (omega arith) (omega arith)).fails
