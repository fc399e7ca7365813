-- ===== src/Reactor/ReactorBuf/Drain.antt =====
-- `pop`, `clear` and `write2fd` of reactor_buf.cpp: how data leaves a buffer.
use mathlib.Core.Path.{subst}
use lars_system.Base.{
  zero, suc, ◌≢◌, ap, ◌∙◌, ℕ, ◌+◌, ◌-◌, ◌≤◌, ◌<◌, ◌≡◌, refl, ◌⊎◌, inl, inr, ◌==◌, leb, true, Option,
  none, some, List, [], ◌∷◌, length, drop, arith, Bool-cases,
}
use lars_system.Base.Run.{Sys, retried, Safe, Safe->>=, Safe-mono}
use lars_system.Reactor.IoBuf.{IoBuf, adjust, contents, Fits}
use lars_system.Reactor.IoBuf
use lars_system.Reactor.IoBuf.Bytes.{contents-pop, contents-adjust, length-contents}
use lars_system.Reactor.BufPool.{BufPool, revert, size_class}
use lars_system.Reactor.BufPool.Stock.{IsStocked, revert-IsStocked}
use lars_system.Reactor.ReactorBuf.{
  ReactorBuf, data_in, length_in, or_fault, give_back, pop_block, pop, WriteResult, wrote, again,
  failed, after_write, write2fd, Written,
}
use lars_system.Reactor.ReactorBuf.Room.{IsWell, BlockOk, AtFront, Returns-or_fault}

pub length-data_in : (o : Option IoBuf) → length (data_in o) ≡ length_in o
length-data_in none = refl
length-data_in (some b) = length-contents b

-- A buffer that gave its block back.
abbrev pub Emptied : ReactorBuf → Type 0
Emptied s = IsWell s × (s.buf ≡ none)

pub give_back-Emptied :
    (b : IoBuf) (pool : BufPool)
    → IsStocked pool
    → size_class b.capacity ≡ some b.capacity
    → Safe ⊥ Emptied (give_back b pool)
unfolding give_back
give_back-Emptied b pool v c =
    Safe->>= _ _ _ (or_fault (revert b pool)) _
      (Returns-or_fault _ _ (revert b pool) (revert-IsStocked b pool v c))
      λ pool' v'. (record { stocked = v'; block = tt }, refl)

-- What `pop` leaves: the rest of the data; with nothing left, no block.
abbrev pub Popped : ℕ → Option IoBuf → ReactorBuf → Type 0
Popped len o s' =
    IsWell s'
    × (data_in s'.buf ≡ drop len (data_in o))
    × (((length_in o ≡ len) × (s'.buf ≡ none)) ⊎ ((len < length_in o) × (s'.buf ≢ none)))

pub drop_all : (n : ℕ) (xs : List ℕ) → length xs ≤ n → [] ≡ drop n xs
drop_all zero [] h = refl
drop_all (suc n) [] h = refl
drop_all zero (x ∷ xs) h = absurd (omega arith)
drop_all (suc n) (x ∷ xs) h = drop_all n xs (omega arith)

give_back-Popped :
    (len : ℕ) (b : IoBuf) (s : ReactorBuf) → b.length ≡ len → Emptied s → Popped len (some b) s
give_back-Popped len b s e (w, gone) = (
  w,
  ap data_in gone ∙ drop_all len (contents b) (ground (arith, length-contents b, e)),
  inl (e, gone),
)

pop_block-Popped :
    (len : ℕ) (b : IoBuf) (pool : BufPool)
    → IsStocked pool
    → BlockOk (some b)
    → len ≤ b.length
    → Safe ⊥ (Popped len (some b)) (pop_block len b pool)
unfolding pop_block IoBuf.pop
pop_block-Popped len b pool v (fits, c) h =
    let enough : leb len b.length ≡ true = ground arith in
    elim (Bool-cases ((b.length - len) == 0)) [
      | inl gone ↦
          rw (enough, gone)
            (Safe-mono _ _ _ (give_back (IoBuf.pop len b) pool)
              (λ s w. give_back-Popped len b s (ground (arith, gone)) w)
              (give_back-Emptied (IoBuf.pop len b) pool v c))
      | inr left ↦
          rw (enough, left)
            (
              record { stocked = v; block = (omega arith, c) },
              contents-pop len b h,
              inr (ground (arith, left), ground arith),
            )
    ]

-- On a buffer in order, `pop` of at most the data that is there drops it from the front of the
-- data; a block that is empty after that goes back to the pool.
pub pop-Popped :
    (len : ℕ) (b : IoBuf) (s : ReactorBuf)
    → s.buf ≡ some b
    → IsWell s
    → len ≤ b.length
    → Safe ⊥ (Popped len (some b)) (pop len s)
unfolding pop
pop-Popped len b s e w h =
    rw e (pop_block-Popped len b s.pool w.stocked (subst BlockOk e w.block) h)

-- What `write2fd` comes to for what `write` returned.
abbrev pub Drained : WriteResult → ReactorBuf → Written → Type 0
Drained (wrote n) s (o, s') =
    (o ≡ some n) × IsWell s' × AtFront s'.buf × (data_in s'.buf ≡ drop n (data_in s.buf))
Drained again s (o, s') = (o ≡ some 0) × (s' ≡ s)
Drained failed s (o, s') = (o ≡ none) × (s' ≡ s)

-- `write` takes no more than it was given.
abbrev pub Takes : WriteResult → ℕ → Type 0
Takes (wrote n) len = n ≤ len
Takes again len = Unit {0}
Takes failed len = Unit {0}

moved-BlockOk :
    (n : ℕ) (b : IoBuf)
    → n ≤ b.length
    → Fits b
    → size_class b.capacity ≡ some b.capacity
    → BlockOk (some (adjust (IoBuf.pop n b)))
unfolding adjust IoBuf.pop
moved-BlockOk n b h fits c = elim (Bool-cases ((b.head + n) == 0)) [
  | inl front ↦ rw front (omega arith, c)
  | inr back ↦ rw back (omega arith, c)
]

moved-head : (n : ℕ) (b : IoBuf) → (adjust (IoBuf.pop n b)).head ≡ 0
unfolding adjust IoBuf.pop
moved-head n b = elim (Bool-cases ((b.head + n) == 0)) [
  | inl front ↦ rw front (ground (arith, front))
  | inr back ↦ rw back refl
]

after_write-Drained :
    (b : IoBuf) (pool : BufPool) (r : WriteResult)
    → IsStocked pool
    → BlockOk (some b)
    → b.head ≡ 0
    → Takes r b.length
    → Drained r (record { buf = some b; pool = pool }) (after_write b pool r)
unfolding after_write
after_write-Drained b pool (wrote n) v (fits, c) front h = elim (Bool-cases (n == 0)) [
  | inl none_taken ↦
      rw none_taken
        (refl, record { stocked = v; block = (fits, c) }, front, ground (arith, none_taken))
  | inr some_taken ↦ rw some_taken (
    refl,
    record { stocked = v; block = moved-BlockOk n b h fits c },
    moved-head n b,
    contents-adjust (IoBuf.pop n b) ∙ contents-pop n b h,
  )
]
after_write-Drained b pool again v (fits, c) front h = (refl, refl)
after_write-Drained b pool failed v (fits, c) front h = (refl, refl)

-- `write2fd` on a buffer in order whose data starts at the start of the block, for a `write` that
-- takes no more bytes than there are: those bytes leave the data, and the rest starts at the start
-- of the block again; on EAGAIN or a failure nothing changes.
pub write2fd-Drained :
    (sys : Sys WriteResult) (b : IoBuf) (pool : BufPool)
    → IsStocked pool
    → BlockOk (some b)
    → b.head ≡ 0
    → Takes (retried sys) b.length
    → let s : ReactorBuf = record { buf = some b; pool = pool } in
      Safe ⊥ (Drained (retried sys) s) (write2fd sys s)
unfolding write2fd
write2fd-Drained sys b pool v w front h =
    let head0 : (b.head == 0) ≡ true = ground arith in
    rw head0 (after_write-Drained b pool (retried sys) v w front h)
