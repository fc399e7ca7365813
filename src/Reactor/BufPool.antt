-- ===== src/Reactor/BufPool.antt =====
-- buf_pool.h and buf_pool.cpp: free lists of memory blocks by size. Each operation runs under the
-- pool's mutex and is one step. Memory sizes are counted in KiB, as the source does.
pub mod Stock
use lars_system.Base.{
  ℕ, zero, suc, ◌+◌, ◌-◌, ◌*◌, ◌/◌, ◌≤◌, ◌<◌, ◌==◌, leb, if◌then◌else◌, Option, none, some, List,
  [], ◌∷◌, lookup, put, ◌>>=◌,
}
use lars_system.Reactor.IoBuf.{IoBuf, new_io_buf, clear}

-- `enum MEM_CAP`.
abbrev pub m4k : ℕ
m4k = 4096

abbrev pub m16k : ℕ
m16k = 16384

abbrev pub m64k : ℕ
m64k = 65536

abbrev pub m256k : ℕ
m256k = 262144

abbrev pub m1m : ℕ
m1m = 1048576

abbrev pub m4m : ℕ
m4m = 4194304

abbrev pub m8m : ℕ
m8m = 8388608

abbrev pub extra_mem_limit : ℕ
extra_mem_limit = 5 * 1024 * 1024

pub record BufPool : Type 0 where
  pub pool : List (ℕ × List IoBuf)
  pub total_mem : ℕ

-- `num` blocks behind the head of the list; `garbage` is what fresh memory holds.
unfoldable pub fresh_bufs : (ℕ → ℕ) → ℕ → ℕ → List IoBuf
unfolding new_io_buf
fresh_bufs garbage cap zero = []
fresh_bufs garbage cap (suc n) = new_io_buf garbage cap ∷ fresh_bufs garbage cap n

unfoldable pub make_io_buf_list : (ℕ → ℕ) → ℕ → ℕ → BufPool → BufPool
unfolding fresh_bufs new_io_buf
make_io_buf_list garbage cap num s = record {
  pool = put cap (new_io_buf garbage cap ∷ fresh_bufs garbage cap num) s.pool;
  total_mem = s.total_mem + cap / 1024 * num;
}

-- The constructor.
unfoldable pub new_buf_pool : (ℕ → ℕ) → BufPool
new_buf_pool garbage =
    let make = make_io_buf_list garbage in
    make m8m 10 (
      make m4m 20 (
        make m1m 50 (
          make m256k 200 (
            make m64k 500 (make m16k 1000 (make m4k 5000 (record { pool = []; total_mem = 0 })))))))

-- The size class of a request; `none` is a request that is too large.
unfoldable pub size_class : ℕ → Option ℕ
size_class n =
    if leb n m4k
    then some m4k
    else if leb n m16k
    then some m16k
    else if leb n m64k
    then some m64k
    else if leb n m256k
    then some m256k
    else if leb n m1m
    then some m1m
    else if leb n m4m
    then some m4m
    else if leb n m8m
    then some m8m
    else none

-- What a request comes to: a block, a null pointer, or the end of the process.
pub data Alloc : Type 0 where
  got : IoBuf → BufPool → Alloc
  null : Alloc
  exits : Alloc

abbrev pub free_list : ℕ → BufPool → List IoBuf
free_list cap s = elim (lookup cap s.pool) [ none ↦ [] | some l ↦ l ]

-- A block of the class: the first of its list, or a new one while the total stays below the limit.
unfoldable pub take_block : (ℕ → ℕ) → ℕ → List IoBuf → BufPool → Alloc
unfolding new_io_buf
take_block garbage index [] s =
    if leb extra_mem_limit (s.total_mem + index / 1024)
    then exits
    else got (new_io_buf garbage index) (record s { total_mem = s.total_mem + index / 1024 })
take_block garbage index (target ∷ rest) s = got target (record s { pool = put index rest s.pool })

unfoldable pub alloc_buf : (ℕ → ℕ) → ℕ → BufPool → Alloc
unfolding take_block size_class
alloc_buf garbage n s = elim (size_class n) [
  | none ↦ null
  | some index ↦ take_block garbage index (free_list index s) s
]

-- `none` is the failed assertion that the block's size is one of the pool's.
unfoldable pub revert : IoBuf → BufPool → Option BufPool
unfolding clear
revert b s = elim (lookup b.capacity s.pool) [
  | none ↦ none
  | some l ↦ some (record s { pool = put b.capacity (clear b ∷ l) s.pool })
]
