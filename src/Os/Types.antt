-- ===== src/Os/Types.antt =====
-- The outcomes of `read` and `write` on a non-blocking socket, and the calls on files.
use file_system_server.Base.{ℕ, Bool, List, [], ◌∷◌, ◌++◌, Option, length, take, drop, min}

-- What the environment has in store for the next reads of a socket: bytes that have arrived, a
-- signal that interrupts the call, a failure of the connection, or its end.
pub data Recv : Type 0 where
  bytes : ℕ → List ℕ → Recv
  interrupted : Recv
  broken : Recv
  closed : Recv

-- What `write` does when it is called: it takes at most so many bytes, is interrupted, or fails. With
-- no outcome left the socket's buffer is full.
pub data Send : Type 0 where
  accepts : ℕ → Send
  interrupts : Send
  breaks : Send

pub record Socket : Type 0 where
  pub incoming : List Recv
  pub outcomes : List Send
  pub sent : List ℕ

-- The result of a read with what is still to come, by the value of `errno` that the program tells
-- apart.
pub data ReadResult : Type 0 where
  got : List ℕ → List Recv → ReadResult
  eof : List Recv → ReadResult
  eintr : List Recv → ReadResult
  eagain : List Recv → ReadResult
  failed : List Recv → ReadResult

-- The result of a write with the socket after it; `wrote` has the number of bytes taken.
pub data WriteResult : Type 0 where
  wrote : ℕ → Socket → WriteResult
  would_block : Socket → WriteResult
  write_failed : Socket → WriteResult
  write_interrupted : Socket → WriteResult

-- The bytes of an arrival that a read left behind.
unfoldable pub put_back : List ℕ → List Recv → List Recv
put_back [] rest = rest
put_back (b ∷ bs) rest = bytes b bs ∷ rest

-- `read(fd, buf, n)` with 0 < n.
unfoldable pub read_from : ℕ → List Recv → ReadResult
unfolding put_back
read_from n [] = eagain []
read_from n (bytes b bs ∷ rest) = got (take n (b ∷ bs)) (put_back (drop n (b ∷ bs)) rest)
read_from n (interrupted ∷ rest) = eintr rest
read_from n (broken ∷ rest) = failed rest
read_from n (closed ∷ rest) = eof (closed ∷ rest)

unfoldable pub write_next : List ℕ → List Send → Socket → WriteResult
write_next bs [] s = would_block s
write_next bs (accepts k ∷ rest) s =
    let n = min k (length bs) in wrote n (record s { outcomes = rest; sent = s.sent ++ take n bs })
write_next bs (interrupts ∷ rest) s = write_interrupted (record s { outcomes = rest })
write_next bs (breaks ∷ rest) s = write_failed (record s { outcomes = rest })

-- `write(fd, bs, length bs)`.
unfoldable pub write : List ℕ → Socket → WriteResult
unfolding write_next
write bs s = write_next bs s.outcomes s

-- The calls on files, and the state that they act on. A path is the bytes of the C string; `none` stands
-- for the result -1.
pub record FileSystem : Type 1 where
  pub Disk : Type 0
  pub open_write : List ℕ → Disk → Option ℕ × Disk
  pub open_read : List ℕ → Disk → Option ℕ × Disk
  pub fstat_size : ℕ → Disk → Option ℕ
  pub pread : ℕ → ℕ → ℕ → Disk → Option (List ℕ)
  pub pwrite : ℕ → List ℕ → ℕ → Disk → Option ℕ × Disk
  pub close_file : ℕ → Disk → Disk
  pub unlink : List ℕ → Disk → Bool × Disk
