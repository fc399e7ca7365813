-- ===== src/Reactor/IoBuf.antt =====
-- io_buf.h and io_buf.cpp: one block of memory, with the window of it that holds data. The block is
-- a function from offsets to bytes; what was never written is whatever the function says. The link
-- `next` of the free lists is the list structure of BufPool.
pub mod Bytes
use lars_system.Base.{ℕ, zero, suc, ◌+◌, ◌-◌, ◌≤◌, ◌==◌, ltb, if◌then◌else◌, List, [], ◌∷◌, length}

pub record IoBuf : Type 0 where
  pub block : ℕ → ℕ
  pub head : ℕ
  pub length : ℕ
  pub capacity : ℕ

-- The constructor; `garbage` is what `new char[size]` holds.
unfoldable pub new_io_buf : (ℕ → ℕ) → ℕ → IoBuf
new_io_buf garbage size = record { block = garbage; head = 0; length = 0; capacity = size }

unfoldable pub clear : IoBuf → IoBuf
clear b = record b { head = 0; length = 0 }

-- `memmove(data, data + head, length)`, and `memcpy` from another block.
unfoldable pub move_down : (ℕ → ℕ) → (ℕ → ℕ) → ℕ → ℕ → ℕ → ℕ
move_down to from head length i = if ltb i length then from (head + i) else to i

unfoldable pub adjust : IoBuf → IoBuf
unfolding move_down
adjust b = if b.head == 0 then b else record b {
  block = if b.length == 0 then b.block else move_down b.block b.block b.head b.length;
  head = 0;
}

unfoldable pub copy : IoBuf → IoBuf → IoBuf
unfolding move_down
copy b other = record b {
  block = move_down b.block other.block other.head other.length;
  head = 0;
  length = other.length;
}

-- The callers see to it that `len` is at most the length.
unfoldable pub pop : ℕ → IoBuf → IoBuf
pop len b = record b { length = b.length - len; head = b.head + len }

-- `memcpy(data + offset, xs, length xs)`.
unfoldable pub poke : (ℕ → ℕ) → ℕ → List ℕ → ℕ → ℕ
poke f offset [] i = f i
poke f offset (x ∷ xs) i = if i == offset then x else poke f (suc offset) xs i

-- Data put behind the window, which grows by it.
unfoldable pub append : List ℕ → IoBuf → IoBuf
unfolding poke
append xs b = record b {
  block = poke b.block (b.head + b.length) xs;
  length = b.length + length xs;
}

-- The bytes of a block from an offset on.
unfoldable pub bytes : (ℕ → ℕ) → ℕ → ℕ → List ℕ
bytes f offset zero = []
bytes f offset (suc n) = f offset ∷ bytes f (suc offset) n

-- The data of a buffer.
unfoldable pub contents : IoBuf → List ℕ
unfolding bytes
contents b = bytes b.block b.head b.length

-- The window lies in the block.
abbrev pub Fits : IoBuf → Type 0
Fits b = b.head + b.length ≤ b.capacity
