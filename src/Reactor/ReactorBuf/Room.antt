-- ===== src/Reactor/ReactorBuf/Room.antt =====
-- `make_room`, `send_data`, `read_data` and `write2fd` of reactor_buf.cpp on a buffer in order.
use mathlib.Core.Path.{subst}
use mathlib.Core.List.{append-nil}
use lars_system.Base.{
  ◌≢◌, ap, sym, ◌∙◌, ℕ, ◌+◌, ◌-◌, ◌≤◌, ◌<◌, ◌≡◌, refl, ◌⊎◌, inl, inr, ◌==◌, ltb, leb, not, ◌&&◌,
  Bool, true, false, Option, none, some, List, [], ◌∷◌, ◌++◌, length, arith, Bool-cases, Returns,
}
use lars_system.Base.Run.{faults, Sys, retried, Safe, Safe->>=}
use lars_system.Reactor.IoBuf.{IoBuf, copy, append, adjust, contents, Fits}
use lars_system.Reactor.IoBuf
use lars_system.Reactor.IoBuf.Bytes.{contents-append, contents-copy}
use lars_system.Reactor.BufPool.{
  BufPool, Alloc, got, null, exits, alloc_buf, revert, m4k, m8m, size_class,
}
use lars_system.Reactor.BufPool.Stock.{
  IsExhausted, IsStocked, Allocated, alloc_buf-Allocated, revert-IsStocked,
}
use lars_system.Reactor.ReactorBuf.{
  ReactorBuf, data_in, length_in, put_data, read_data, read_into, Read, make_room, replace_block,
  first_block, Room, or_fault, send_data,
}

-- A block of one of the pool's sizes, whose data lies in it.
abbrev pub BlockOk : Option IoBuf → Type 0
BlockOk none = Unit {0}
BlockOk (some b) = Fits b × (size_class b.capacity ≡ some b.capacity)

-- The data starts at the start of the block.
abbrev pub AtFront : Option IoBuf → Type 0
AtFront none = Unit {0}
AtFront (some b) = b.head ≡ 0

pub record IsWell (s : ReactorBuf) : Type 0 where
  pub stocked : IsStocked s.pool
  pub block : BlockOk s.buf

abbrev Roomy : ℕ → Option IoBuf → BufPool → Room → Type 0
Roomy need o old (none, pool) = (pool ≡ old) × (m8m < length_in o + need)
Roomy need o old (some b, pool) =
    IsStocked pool
    × (size_class b.capacity ≡ some b.capacity)
    × (b.head ≡ 0)
    × (contents b ≡ data_in o)
    × (b.length + need ≤ b.capacity)
    × (b.length ≡ length_in o)

pub Returns-or_fault {ℓ} :
    {A : Type ℓ} (E : Type 0) (P : A → Type 0) (o : Option A) → Returns P o → Safe E P (or_fault o)
Returns-or_fault E P none h = h
Returns-or_fault E P (some a) h = h

first_block-Roomy :
    (need : ℕ) (old : BufPool) (a : Alloc)
    → Allocated need old a
    → Safe (IsExhausted old) (Roomy need none old) (first_block a old)
unfolding first_block contents IoBuf.bytes
first_block-Roomy need old null h = (refl, ground arith)
first_block-Roomy need old exits h = (need, h.0, h.1, h.2)
first_block-Roomy need old (got b pool) (h, c, clean, v) =
    (v, c, clean.2, ground (arith, clean.1), ground (arith, clean.1), ground (arith, clean.1))

replace_block-Roomy :
    (need : ℕ) (b : IoBuf) (old : BufPool) (a : Alloc)
    → size_class b.capacity ≡ some b.capacity
    → Allocated (b.length + need) old a
    → Safe (IsExhausted old) (Roomy need (some b) old) (replace_block b a old)
unfolding replace_block copy
replace_block-Roomy need b old null c h = (refl, h)
replace_block-Roomy need b old exits c h = (b.length + need, h.0, h.1, h.2)
replace_block-Roomy need b old (got n pool) c (h, cn, clean, v) =
    Safe->>= _ _ _ (or_fault (revert b pool)) _
      (Returns-or_fault _ _ (revert b pool) (revert-IsStocked b pool v c))
      λ pool2 v2. (v2, cn, refl, contents-copy n b, h, refl)

-- Room for `need` more bytes: the same data, at the start of a block that is large enough; or the
-- request is too large for any block.
make_room-Roomy :
    (garbage : ℕ → ℕ) (need : ℕ) (o : Option IoBuf) (pool : BufPool)
    → IsStocked pool
    → BlockOk o
    → AtFront o
    → Safe (IsExhausted pool) (Roomy need o pool) (make_room garbage need o pool)
unfolding make_room
make_room-Roomy garbage need none pool v b f =
    first_block-Roomy need pool (alloc_buf garbage need pool)
      (alloc_buf-Allocated garbage need pool v)
make_room-Roomy garbage need (some b) pool v (fits, c) f =
    let head0 : (b.head == 0) ≡ true = ground arith in
    elim (Bool-cases (ltb (b.capacity - b.length) need)) [
      | inl small ↦
          rw (head0, small)
            (replace_block-Roomy need b pool (alloc_buf garbage (b.length + need) pool) c
              (alloc_buf-Allocated garbage (b.length + need) pool v))
      | inr large ↦ rw (head0, large) (v, c, f, refl, ground (arith, large), refl)
    ]

-- What `send_data` comes to: the data is at the end of the buffer; or it is too large for any block,
-- and the buffer is as it was.
abbrev pub Sent : List ℕ → ReactorBuf → Bool × ReactorBuf → Type 0
Sent xs s (true, s') = IsWell s' × AtFront s'.buf × (data_in s'.buf ≡ data_in s.buf ++ xs)
Sent xs s (false, s') = (s' ≡ s) × (m8m < length_in s.buf + length xs)

append-BlockOk :
    (xs : List ℕ) (b : IoBuf)
    → size_class b.capacity ≡ some b.capacity
    → b.head ≡ 0
    → b.length + length xs ≤ b.capacity
    → BlockOk (some (append xs b))
unfolding append
append-BlockOk xs b c front fits = (omega arith, c)

put_data-Sent :
    (xs : List ℕ) (s : ReactorBuf) (r : Room)
    → Roomy (length xs) s.buf s.pool r
    → Sent xs s (put_data xs s r)
unfolding put_data
put_data-Sent xs s (none, pool) (same, large) = (ap (λ p. record s { pool = p }) same, large)
put_data-Sent xs s (some b, pool) (v, c, front, same, fits, len) = (
  record { stocked = v; block = append-BlockOk xs b c front fits },
  front_append xs b front,
  contents-append xs b ∙ ap (λ l. l ++ xs) same,
)
  where
    front_append : (xs : List ℕ) (b : IoBuf) → b.head ≡ 0 → (append xs b).head ≡ 0
    front_append xs b h = h

-- On a buffer in order whose data starts at the start of the block, `send_data` does what `Sent`
-- says, or the process ends with a class of the pool used up; it never writes past a block.
pub send_data-Sent :
    (garbage : ℕ → ℕ) (xs : List ℕ) (s : ReactorBuf)
    → IsWell s
    → AtFront s.buf
    → Safe (IsExhausted s.pool) (Sent xs s) (send_data garbage xs s)
unfolding send_data
send_data-Sent garbage xs s v f =
    Safe->>= _ _ _ (make_room garbage (length xs) s.buf s.pool) _
      (make_room-Roomy garbage (length xs) s.buf s.pool v.stocked v.block f)
      λ r h. put_data-Sent xs s r h

-- What `read_data` comes to. Data that `read` gave stands at the end of the buffer, unless no block
-- is large enough for it.
abbrev pub Received : ℕ → Option (List ℕ) → ReactorBuf → Read → Type 0
Received need none s (none, s') = IsWell s' × AtFront s'.buf × (data_in s'.buf ≡ data_in s.buf)
Received need (some xs) s (none, s') =
    IsWell s' × AtFront s'.buf × (data_in s'.buf ≡ data_in s.buf) × (m8m < length_in s.buf + need)
Received need none s (some n, s') = ⊥
Received need (some xs) s (some n, s') =
    IsWell s' × AtFront s'.buf × (data_in s'.buf ≡ data_in s.buf ++ xs) × (n ≡ length xs)

-- A `read` of bytes that were reported to wait: it fails, meets the end, or gives them all.
abbrev pub GivesAll : ℕ → Option (List ℕ) → Type 0
GivesAll need none = Unit {0}
GivesAll need (some xs) = (length xs ≡ 0) ⊎ (length xs ≡ need)

Received-nil :
    (need : ℕ) (xs : List ℕ) (s s' : ReactorBuf)
    → length xs ≡ 0
    → IsWell s'
    → AtFront s'.buf
    → data_in s'.buf ≡ data_in s.buf
    → Received need (some xs) s (some 0, s')
Received-nil need [] s s' h v f e = (v, f, e ∙ sym (append-nil (data_in s.buf)), refl)
Received-nil need (x ∷ xs) s s' h v f e = absurd (omega arith)

read_into-Received :
    (need : ℕ) (r : Option (List ℕ)) (s : ReactorBuf) (room : Room)
    → need ≢ 0
    → GivesAll need r
    → IsWell s
    → AtFront s.buf
    → Roomy need s.buf s.pool room
    → Safe (IsExhausted s.pool) (Received need r s) (read_into need r s room)
unfolding read_into
read_into-Received need none s (none, pool) ne g w f (same, large) =
    (subst IsWell (ap (λ p. record s { pool = p }) (sym same)) w, f, refl)
read_into-Received need (some xs) s (none, pool) ne g w f (same, large) =
    (subst IsWell (ap (λ p. record s { pool = p }) (sym same)) w, f, refl, large)
read_into-Received need none s (some b, pool) ne g w f (v, c, front, same, fits, len) =
    (record { stocked = v; block = (omega arith, c) }, front, same)
read_into-Received need (some xs) s (some b, pool) ne g w f (v, c, front, same, fits, len) =
    elim (Bool-cases (length xs == 0)) [
      | inl nothing ↦ rw nothing (
          Received-nil need xs s (record { buf = some b; pool = pool }) (ground (arith, nothing))
            (record { stocked = v; block = (omega arith, c) }) front same)
      | inr something ↦
          rw (something, all something, room something) (filled (ground (arith, something)))
    ]
  where
    all : (length xs == 0) ≡ false → (not (need == 0) && not (length xs == need)) ≡ false
    all h = ground arith

    room : (length xs == 0) ≡ false → leb (length xs) (b.capacity - b.length) ≡ true
    room h = ground arith

    filled :
        length xs ≤ need
        → Received need
            (some xs)
            s
            (some (length xs), record { buf = some (append xs b); pool = pool })
    filled h = (
      record { stocked = v; block = append-BlockOk xs b c front (omega arith) },
      front,
      contents-append xs b ∙ ap (λ l. l ++ xs) same,
      refl,
    )

-- On a buffer in order, and for bytes that wait and that `read` gives in full, `read_data` puts them
-- at the end of the buffer; no assertion fails, it never writes past a block, and the process ends
-- only with a class of the pool used up.
pub read_data-Received :
    (garbage : ℕ → ℕ) (need : ℕ) (sys : Sys (Option (List ℕ))) (s : ReactorBuf)
    → IsWell s
    → AtFront s.buf
    → need ≢ 0
    → GivesAll need (retried sys)
    → Safe
        (IsExhausted s.pool)
        (Received need (retried sys) s)
        (read_data garbage (some need) sys s)
unfolding read_data
read_data-Received garbage need sys s v f ne g =
    Safe->>= _ _ _ (make_room garbage need s.buf s.pool) _
      (make_room-Roomy garbage need s.buf s.pool v.stocked v.block f)
      λ r h. read_into-Received need (retried sys) s r ne g v f h

-- If no byte was reported to wait and `read` gives more bytes than the present block has room for,
-- they are written past its end.
pub read_data_overflows :
    (garbage : ℕ → ℕ) (sys : Sys (Option (List ℕ))) (b : IoBuf) (pool : BufPool) (xs : List ℕ)
    → b.head ≡ 0
    → retried sys ≡ some xs
    → length xs ≤ m4k
    → b.capacity - b.length < length xs
    → read_data garbage (some 0) sys (record { buf = some b; pool = pool }) ≡ faults
unfolding read_data
read_data_overflows garbage sys b pool xs front got_bytes asked over = ground arith
