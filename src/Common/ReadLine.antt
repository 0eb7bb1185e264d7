-- ===== src/Common/ReadLine.antt =====
-- common.c, `read_line_from_socket` and `get_file_size`.
use file_system_server.Base.{
  ℕ, zero, suc, ◌+◌, ◌-◌, ◌^◌, ◌≤◌, ◌<◌, ◌≡◌, ap, ◌∙◌, true, false, List, [], ◌∷◌, ◌++◌, Option,
  none, some, arith, length, ltb, ◌==◌, newline, append_assoc, length-append, lt→ltb,
}
use file_system_server.Os.{
  Recv, got, eof, eintr, eagain, failed, read_from, weight, weight_pos, stream, ending, arrived,
  resumed, ended, lost, waits, read_from_cases,
}

-- The loop, with the bytes that are in the buffer. `none` is the result -1; else the result is the number
-- of bytes. The fuel bounds the reads that the arrivals can serve.
unfoldable pub read_line_loop : ℕ → ℕ → List ℕ → List Recv → Option (List ℕ) × List Recv
read_line_loop zero size buffer rs = (none, rs)
read_line_loop (suc fuel) size buffer rs = elim (ltb (length buffer) (size - 1)) [
  | false ↦ (some buffer, rs)
  | true ↦ elim (read_from 1 rs) [
    | got [] rest ↦ (some buffer, rest)
    | got (c ∷ cs) rest ↦ elim (c == newline) [
      | true ↦ (some (buffer ++ c ∷ []), rest)
      | false ↦ read_line_loop fuel size (buffer ++ c ∷ []) rest
    ]
    | eintr rest ↦ read_line_loop fuel size buffer rest
    | eof rest ↦ (some buffer, rest)
    | eagain rest ↦ (none, rest)
    | failed rest ↦ (none, rest)
  ]
]

unfoldable pub read_line_from_socket : ℕ → List Recv → Option (List ℕ) × List Recv
unfolding read_line_loop
read_line_from_socket size rs = read_line_loop (weight rs) size [] rs

-- A line of the stream, without a newline in it and with the newline behind it.
abbrev pub NoNewline : List ℕ → Type 0
NoNewline [] = Unit
NoNewline (c ∷ cs) = ((c == newline) ≡ false) × NoNewline cs

pub record LineRead (line more buffer : List ℕ) (rs : List Recv) (out : Option (List ℕ) × List Recv)
    : Type 0 where
  pub got_line : out.0 ≡ some (buffer ++ (line ++ newline ∷ []))
  pub left : stream out.1 ≡ more
  pub ends : ending out.1 ≡ ending rs

pub head_eq : {a b : ℕ} {xs ys : List ℕ} → a ∷ xs ≡ b ∷ ys → a ≡ b
head_eq e = cc

pub tail_eq : {a b : ℕ} {xs ys : List ℕ} → a ∷ xs ≡ b ∷ ys → xs ≡ ys
tail_eq e = cc

line_round :
    (fuel size : ℕ) (line more buffer : List ℕ) (rs rest : List Recv) (b : ℕ)
    → ((line' buffer' : List ℕ)
        → NoNewline line'
        → stream rest ≡ line' ++ newline ∷ more
        → length buffer' + length line' < size - 1
        → LineRead line' more buffer' rest (read_line_loop fuel size buffer' rest))
    → NoNewline line
    → length buffer + length line < size - 1
    → read_from 1 rs ≡ got (b ∷ []) rest
    → b ∷ stream rest ≡ line ++ newline ∷ more
    → ending rest ≡ ending rs
    → LineRead line more buffer rs (read_line_loop (suc fuel) size buffer rs)
unfolding read_line_loop
line_round fuel size [] more buffer rs rest b keep nn lt r e same =
    let is : b ≡ newline = head_eq e in
    rw (lt→ltb (length buffer) (size - 1) (omega arith), r, is, read_line_loop)
      (record { got_line = ap (λ z. some (buffer ++ z ∷ [])) is; left = tail_eq e; ends = same })
line_round fuel size (c ∷ cs) more buffer rs rest b keep nn lt r e same =
    let is : b ≡ c = head_eq e in
    let h =
      keep cs (buffer ++ b ∷ []) (nn.1) (tail_eq e)
        (omega (arith, length-append buffer (b ∷ []))) in
    rw
      (
        lt→ltb (length buffer) (size - 1) (omega arith),
        r,
        ap (λ z. z == newline) is ∙ nn.0,
        read_line_loop,
      )
      (record {
        got_line =
            h.got_line
            ∙ ap some (append_assoc buffer (b ∷ []) (cs ++ newline ∷ []))
            ∙ ap (λ z. some (buffer ++ z ∷ (cs ++ newline ∷ []))) is;
        left = h.left;
        ends = h.ends ∙ same;
      })

pub no_bytes :
    (line more : List ℕ) (rs : List Recv) → stream rs ≡ [] → stream rs ≡ line ++ newline ∷ more → ⊥
no_bytes line more rs s e =
    absurd (omega (arith, ap length s, ap length e, length-append line (newline ∷ more)))

read_line_loop-LineRead :
    (fuel size : ℕ) (line more buffer : List ℕ) (rs : List Recv)
    → weight rs ≤ fuel
    → NoNewline line
    → stream rs ≡ line ++ newline ∷ more
    → length buffer + length line < size - 1
    → LineRead line more buffer rs (read_line_loop fuel size buffer rs)
unfolding read_line_loop
read_line_loop-LineRead zero size line more buffer rs w nn e lt =
    absurd (omega (arith, weight_pos rs))
read_line_loop-LineRead (suc fuel) size line more buffer rs w nn e lt =
    elim (read_from_cases 1 rs (omega arith)) [
      | arrived b [] rest r s le less same ↦
          line_round fuel size line more buffer rs rest b
            (λ line' buffer' nn' e' lt'.
              read_line_loop-LineRead fuel size line' more buffer' rest (omega arith) nn' e' lt')
            nn lt r (s ∙ e) same
      | arrived b (b' ∷ bs) rest r s le less same ↦ absurd (omega arith)
      | resumed rest r s less same ↦
          let h =
            read_line_loop-LineRead fuel size line more buffer rest (omega arith) nn (s ∙ e) lt in
          rw (lt→ltb (length buffer) (size - 1) (omega arith), r, read_line_loop)
            (record { got_line = h.got_line; left = h.left; ends = h.ends ∙ same })
      | ended r s x ↦ absurd (no_bytes line more rs s e)
      | lost rest r s x ↦ absurd (no_bytes line more rs s e)
      | waits r s ↦ absurd (no_bytes line more rs (ap stream s) e)
    ]

-- If a line with its newline is among the bytes that arrive, and fits the buffer, `read_line_from_socket`
-- returns it, however the bytes are cut and whatever calls are interrupted, and leaves what is behind
-- it.
pub read_line_from_socket_lem :
    (size : ℕ) (line more : List ℕ) (rs : List Recv)
    → NoNewline line
    → stream rs ≡ line ++ newline ∷ more
    → length line < size - 1
    → LineRead line more [] rs (read_line_from_socket size rs)
unfolding read_line_from_socket
read_line_from_socket_lem size line more rs nn e lt =
    read_line_loop-LineRead (weight rs) size line more [] rs (omega arith) nn e (omega arith)

-- `get_file_size`, for the result of `stat`: -1 as a `size_t` where it fails.
abbrev pub get_file_size : Option ℕ → ℕ
get_file_size none = 2 ^ 64 - 1
get_file_size (some st_size) = st_size
