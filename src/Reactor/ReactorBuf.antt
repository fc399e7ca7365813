-- ===== src/Reactor/ReactorBuf.antt =====
-- reactor_buf.h and reactor_buf.cpp: a connection's buffer, a block of the pool or none. The pool,
-- a global object of the program, is part of the state. Lengths stay far below 2^31.
pub mod Room
pub mod Drain
use lars_system.Base.{
  ℕ, ◌+◌, ◌-◌, ◌≤◌, ◌≡◌, ◌==◌, ltb, leb, not, ◌&&◌, Bool, true, false, if◌then◌else◌, Option, none,
  some, List, [], ◌∷◌, length, drop, is_some,
}
use lars_system.Base.Run.{Run, done, dies, faults, ◌>>=◌, Sys, retried}
use lars_system.Reactor.IoBuf.{IoBuf, copy, append, adjust, contents}
use lars_system.Reactor.IoBuf
use lars_system.Reactor.BufPool.{BufPool, Alloc, got, null, exits, alloc_buf, revert, m4k}

pub record ReactorBuf : Type 0 where
  pub buf : Option IoBuf
  pub pool : BufPool

abbrev pub or_fault {ℓ} : {A : Type ℓ} → Option A → Run A
or_fault none = faults
or_fault (some a) = done a

-- The data of a block that may not be there, and its length.
abbrev pub data_in : Option IoBuf → List ℕ
data_in none = []
data_in (some b) = contents b

abbrev pub length_in : Option IoBuf → ℕ
length_in none = 0
length_in (some b) = b.length

-- `reactor_buf::length`.
unfoldable pub buf_length : ReactorBuf → ℕ
buf_length s = length_in s.buf

-- The block goes back to the pool.
unfoldable pub give_back : IoBuf → BufPool → Run ReactorBuf
give_back b pool = do pool' ← or_fault (revert b pool); done (record { buf = none; pool = pool' })

unfoldable pub pop_block : ℕ → IoBuf → BufPool → Run ReactorBuf
unfolding give_back IoBuf.pop
pop_block len b pool =
    if leb len b.length
    then if (IoBuf.pop len b).length == 0
      then give_back (IoBuf.pop len b) pool
      else done (record { buf = some (IoBuf.pop len b); pool = pool })
    else faults

-- `reactor_buf::pop`.
unfoldable pub pop : ℕ → ReactorBuf → Run ReactorBuf
unfolding pop_block
pop len s = elim s.buf [ none ↦ faults | some b ↦ pop_block len b s.pool ]

unfoldable pub clear : ReactorBuf → Run ReactorBuf
unfolding give_back
clear s = elim s.buf [ none ↦ done s | some b ↦ give_back b s.pool ]

-- `input_buf::adjust`.
unfoldable pub adjust_input : ReactorBuf → ReactorBuf
unfolding adjust
adjust_input s = elim s.buf [ none ↦ s | some b ↦ record s { buf = some (adjust b) } ]

-- A block for `need` more bytes and the pool after that; no block if the request is too large.
abbrev pub Room : Type 0
Room = Option IoBuf × BufPool

unfoldable pub replace_block : IoBuf → Alloc → BufPool → Run Room
unfolding copy
replace_block old null pool = done (none, pool)
replace_block old exits pool = dies
replace_block old (got new_buf pool') pool = do
  pool2 ← or_fault (revert old pool')
  done (some (copy new_buf old), pool2)

unfoldable pub first_block : Alloc → BufPool → Run Room
first_block null pool = done (none, pool)
first_block exits pool = dies
first_block (got b pool') pool = done (some b, pool')

-- The start of `read_data` and of `send_data`: the first block, the present one, or a larger one
-- with a copy of the data.
unfoldable pub make_room : (ℕ → ℕ) → ℕ → Option IoBuf → BufPool → Run Room
unfolding replace_block first_block
make_room garbage need none pool = first_block (alloc_buf garbage need pool) pool
make_room garbage need (some b) pool =
    if b.head == 0
    then if ltb (b.capacity - b.length) need
      then replace_block b (alloc_buf garbage (b.length + need) pool) pool
      else done (some b, pool)
    else faults

-- The end of `send_data`: true for 0, false for -1.
unfoldable pub put_data : List ℕ → ReactorBuf → Room → Bool × ReactorBuf
unfolding append
put_data xs s (none, pool) = (false, record s { pool = pool })
put_data xs s (some b, pool) = (true, record { buf = some (append xs b); pool = pool })

unfoldable pub send_data : (ℕ → ℕ) → List ℕ → ReactorBuf → Run (Bool × ReactorBuf)
unfolding make_room put_data
send_data garbage xs s = do
  room ← make_room garbage (length xs) s.buf s.pool
  done (put_data xs s room)

-- What `write` returns once it is not interrupted.
pub data WriteResult : Type 0 where
  wrote : ℕ → WriteResult
  again : WriteResult
  failed : WriteResult

-- The value of `write2fd`: `none` is -1.
abbrev pub Written : Type 0
Written = Option ℕ × ReactorBuf

unfoldable pub after_write : IoBuf → BufPool → WriteResult → Written
unfolding adjust IoBuf.pop
after_write b pool (wrote n) =
    (some n, record { buf = some (if n == 0 then b else adjust (IoBuf.pop n b)); pool = pool })
after_write b pool again = (some 0, record { buf = some b; pool = pool })
after_write b pool failed = (none, record { buf = some b; pool = pool })

-- The kernel takes the bytes from the start of the block, which is the start of the data, since the
-- head is 0.
unfoldable pub write2fd : Sys WriteResult → ReactorBuf → Run Written
unfolding after_write retried
write2fd sys s = elim s.buf [
  | none ↦ faults
  | some b ↦ if b.head == 0 then done (after_write b s.pool (retried sys)) else faults
]

-- The value of `read_data`: `none` is -1, and otherwise the number of bytes.
abbrev pub Read : Type 0
Read = Option ℕ × ReactorBuf

-- `read` gave `bytes`. The kernel writes at most as many bytes as it was asked for: `need_read`, or
-- 4096 if that is 0, which may run past the end of the block.
unfoldable pub after_read : ℕ → IoBuf → BufPool → List ℕ → Run Read
unfolding append
after_read need b pool xs =
    if length xs == 0
    then done (some 0, record { buf = some b; pool = pool })
    else if not (need == 0) && not (length xs == need)
    then faults
    else if leb (length xs) (b.capacity - b.length)
    then done (some (length xs), record { buf = some (append xs b); pool = pool })
    else faults

unfoldable pub read_block : ℕ → IoBuf → BufPool → Option (List ℕ) → Run Read
unfolding after_read
read_block need b pool none = done (none, record { buf = some b; pool = pool })
read_block need b pool (some xs) = after_read need b pool xs

unfoldable pub read_into : ℕ → Option (List ℕ) → ReactorBuf → Room → Run Read
unfolding read_block
read_into need r s (none, pool) = done (none, record s { pool = pool })
read_into need r s (some b, pool) = read_block need b pool r

-- `ioctl` is the number of bytes that wait, or `none` for its failure; `sys` is what `read` gives.
unfoldable pub read_data : (ℕ → ℕ) → Option ℕ → Sys (Option (List ℕ)) → ReactorBuf → Run Read
unfolding make_room read_into retried
read_data garbage none sys s = done (none, s)
read_data garbage (some need) sys s = do
  room ← make_room garbage need s.buf s.pool
  read_into need (retried sys) s room
