-- ===== src/Reactor/BufPool/Stock.antt =====
-- The free lists of buf_pool.cpp hold clean blocks of their size, and a request gets a block that
-- is large enough.
use mathlib.Core.Option.{some-injective}
use mathlib.Core.Path.{subst₂}
use lars_system.Base.{
  ℕ, zero, suc, ◌+◌, ◌*◌, ◌/◌, ◌≤◌, ◌<◌, ◌≡◌, ◌⊎◌, inl, inr, refl, ◌==◌, leb, none, some, List, [],
  ◌∷◌, lookup, put, lookup-put, arith, Returns, Option-cases, Bool-cases,
}
use lars_system.Reactor.IoBuf.{IoBuf, new_io_buf, clear}
use lars_system.Reactor.BufPool.{
  BufPool, Alloc, got, null, exits, size_class, take_block, alloc_buf, revert, free_list,
  extra_mem_limit, make_io_buf_list, fresh_bufs, new_buf_pool, m4k, m16k, m64k, m256k, m1m, m4m,
  m8m,
}

-- A block of the size, with no data.
abbrev pub IsClean : ℕ → IoBuf → Type 0
IsClean cap b = (b.capacity ≡ cap) × (b.length ≡ 0) × (b.head ≡ 0)

abbrev pub AllClean : ℕ → List IoBuf → Type 0
AllClean cap [] = Unit {0}
AllClean cap (b ∷ bs) = IsClean cap b × AllClean cap bs

pub record IsStocked (s : BufPool) : Type 0 where
  pub clean : (cap : ℕ) (l : List IoBuf) → lookup cap s.pool ≡ some l → AllClean cap l
  pub bounded : s.total_mem < extra_mem_limit
  pub classes :
      (n cap : ℕ) → size_class n ≡ some cap → (l : List IoBuf) × (lookup cap s.pool ≡ some l)

-- The class of a request holds it, is a size of the pool, and is at most any size of the pool that
-- holds it.
pub size_class-least :
    (n cap d : ℕ)
    → size_class n ≡ some cap
    → size_class d ≡ some d
    → n ≤ d
    → (n ≤ cap) × (size_class cap ≡ some cap) × (cap ≤ d)
unfolding size_class
size_class-least n cap d h e b = (ground arith, ground arith, ground arith)

size_class-le : (n cap : ℕ) → size_class n ≡ some cap → n ≤ cap
unfolding size_class
size_class-le n cap h = ground arith

-- What a granted request gives.
-- The class has no free block, and a new one would reach the memory limit.
abbrev pub IsUsedUp : ℕ → BufPool → Type 0
IsUsedUp cap s = (lookup cap s.pool ≡ some []) × (extra_mem_limit ≤ s.total_mem + cap / 1024)

-- Some class is used up.
abbrev pub IsExhausted : BufPool → Type 0
IsExhausted s = (n : ℕ) × (cap : ℕ) × (size_class n ≡ some cap) × IsUsedUp cap s

abbrev pub Granted : ℕ → ℕ → BufPool → Alloc → Type 0
Granted n cap s (got b s') = IsClean cap b × (n ≤ b.capacity) × IsStocked s'
Granted n cap s null = ⊥
Granted n cap s exits = IsUsedUp cap s

put-clean :
    (cap : ℕ) (l : List IoBuf) (m : List (ℕ × List IoBuf))
    → ((c : ℕ) (k : List IoBuf) → lookup c m ≡ some k → AllClean c k)
    → AllClean cap l
    → (c : ℕ) (k : List IoBuf) → lookup c (put cap l m) ≡ some k
    → AllClean c k
put-clean cap l m all h c k e = elim (Bool-cases (cap == c)) [
  | inl same ↦
      let eq = some-injective l k (ground (arith, e, same, lookup-put cap c l m)) in
      let eqc : cap ≡ c = ground (arith, same) in subst₂ AllClean eqc eq h
  | inr other ↦ all c k (ground (arith, e, other, lookup-put cap c l m))
]

put-classes :
    (cap : ℕ) (l : List IoBuf) (m : List (ℕ × List IoBuf)) (c : ℕ)
    → (k : List IoBuf) × (lookup c m ≡ some k)
    → (k : List IoBuf) × (lookup c (put cap l m) ≡ some k)
put-classes cap l m c (k, e) = elim (Bool-cases (cap == c)) [
  | inl same ↦ (l, ground (arith, same, lookup-put cap c l m))
  | inr other ↦ (k, ground (arith, other, e, lookup-put cap c l m))
]

take_block-Granted :
    (garbage : ℕ → ℕ) (n cap : ℕ) (l : List IoBuf) (s : BufPool)
    → IsStocked s
    → n ≤ cap
    → AllClean cap l
    → lookup cap s.pool ≡ some l
    → Granted n cap s (take_block garbage cap l s)
unfolding take_block
take_block-Granted garbage n cap [] s v h a f =
    elim (Bool-cases (leb extra_mem_limit (s.total_mem + cap / 1024))) [
      | inl full ↦ rw full (f, ground (arith, full))
      | inr room ↦ rw room (
        (refl, refl, refl),
        h,
        record { clean = v.clean; bounded = ground (arith, room); classes = v.classes },
      )
    ]
take_block-Granted garbage n cap (b ∷ bs) s v h a f = (
  a.0,
  ground (arith, a.0),
  record {
    clean = put-clean cap bs s.pool v.clean a.1;
    bounded = v.bounded;
    classes = λ m c e. put-classes cap bs s.pool c (v.classes m c e);
  },
)

-- A request that has a class is granted a clean block of that class, which is large enough, and the
-- pool stays stocked and below its memory limit; or, with the class used up and no room below the
-- limit, the process ends.
pub alloc_buf-Granted :
    (garbage : ℕ → ℕ) (n cap : ℕ) (s : BufPool)
    → IsStocked s
    → size_class n ≡ some cap
    → Granted n cap s (alloc_buf garbage n s)
unfolding alloc_buf
alloc_buf-Granted garbage n cap s v e =
    let (l, found) = v.classes n cap e in
    rw (e, alloc_buf, found, free_list)
      (take_block-Granted garbage n cap l s v (size_class-le n cap e) (v.clean cap l found) found)

-- A request that is too large gets a null pointer.
pub alloc_buf_large :
    (garbage : ℕ → ℕ) (n : ℕ) (s : BufPool) → m8m < n → alloc_buf garbage n s ≡ null
unfolding alloc_buf size_class
alloc_buf_large garbage n s h = ground arith

-- A block of one of the sizes goes back to a stocked pool, which stays stocked.
pub revert-IsStocked :
    (b : IoBuf) (s : BufPool)
    → IsStocked s
    → size_class b.capacity ≡ some b.capacity
    → Returns IsStocked (revert b s)
unfolding revert
revert-IsStocked b s v e =
    let (l, found) = v.classes b.capacity b.capacity e in
    rw (found, revert)
      (record {
        clean =
            put-clean b.capacity (clear b ∷ l) s.pool v.clean
              ((refl, refl, refl), v.clean b.capacity l found);
        bounded = v.bounded;
        classes = λ m c e'. put-classes b.capacity (clear b ∷ l) s.pool c (v.classes m c e');
      })

fresh_bufs-AllClean : (garbage : ℕ → ℕ) (cap n : ℕ) → AllClean cap (fresh_bufs garbage cap n)
unfolding fresh_bufs
fresh_bufs-AllClean garbage cap zero = tt
fresh_bufs-AllClean garbage cap (suc n) = ((refl, refl, refl), fresh_bufs-AllClean garbage cap n)

none_built : (c : ℕ) (k : List IoBuf) → lookup c [] ≡ some k → AllClean c k
unfolding lookup
none_built c k e = absurd (ground arith)

-- The lists that a pool under construction has.
Built : BufPool → ℕ → Type 0
Built s c = (l : List IoBuf) × (lookup c s.pool ≡ some l)

module _ (garbage : ℕ → ℕ) (cap num : ℕ) (s : BufPool) where
  make-clean :
      ((c : ℕ) (k : List IoBuf) → lookup c s.pool ≡ some k → AllClean c k)
      → (c : ℕ) (k : List IoBuf) → lookup c (make_io_buf_list garbage cap num s).pool ≡ some k
      → AllClean c k
  unfolding make_io_buf_list new_io_buf
  make-clean all =
      put-clean cap _ s.pool all ((refl, refl, refl), fresh_bufs-AllClean garbage cap num)

  make-total : (make_io_buf_list garbage cap num s).total_mem ≡ s.total_mem + cap / 1024 * num
  unfolding make_io_buf_list
  make-total = refl

  make-new : Built (make_io_buf_list garbage cap num s) cap
  unfolding make_io_buf_list Built
  make-new = (
    new_io_buf garbage cap ∷ fresh_bufs garbage cap num,
    ground (arith, lookup-put cap cap (new_io_buf garbage cap ∷ fresh_bufs garbage cap num) s.pool),
  )

  make-old : (c : ℕ) → Built s c → Built (make_io_buf_list garbage cap num s) c
  unfolding make_io_buf_list Built
  make-old c b = put-classes cap _ s.pool c b

Classes : BufPool → Type 0
Classes s =
    Built s m4k
    × Built s m16k
    × Built s m64k
    × Built s m256k
    × Built s m1m
    × Built s m4m
    × Built s m8m

Classes-built :
    (s : BufPool)
    → Classes s
    → (n c : ℕ) → size_class n ≡ some c
    → (l : List IoBuf) × (lookup c s.pool ≡ some l)
unfolding Classes Built size_class
Classes-built s b n c e = elim (Option-cases (lookup c s.pool)) [
  | inl missing ↦ absurd (ground (arith, missing))
  | inr there ↦ there
]

-- The pool that the constructor builds is stocked.
pub new_buf_pool-IsStocked : (garbage : ℕ → ℕ) → IsStocked (new_buf_pool garbage)
unfolding new_buf_pool Classes
new_buf_pool-IsStocked garbage =
    let s0 : BufPool = record { pool = []; total_mem = 0 } in
    let s1 = make_io_buf_list garbage m4k 5000 s0 in
    let s2 = make_io_buf_list garbage m16k 1000 s1 in
    let s3 = make_io_buf_list garbage m64k 500 s2 in
    let s4 = make_io_buf_list garbage m256k 200 s3 in
    let s5 = make_io_buf_list garbage m1m 50 s4 in
    let s6 = make_io_buf_list garbage m4m 20 s5 in
    let old =
      λ (c : ℕ) (b : Built s5 c). make-old garbage m8m 10 s6 c (make-old garbage m4m 20 s5 c b) in
    let mid = λ (c : ℕ) (b : Built s3 c).
      old c (make-old garbage m1m 50 s4 c (make-old garbage m256k 200 s3 c b)) in
    record {
      clean = make-clean garbage m8m 10 s6 (
          make-clean garbage m4m 20 s5 (
            make-clean garbage m1m 50 s4 (
              make-clean garbage m256k 200 s3 (
                make-clean garbage m64k 500 s2 (
                  make-clean garbage m16k 1000 s1
                    (make-clean garbage m4k 5000 s0 (λ c k e. none_built c k e)))))));
      bounded = omega (
        arith,
        make-total garbage m8m 10 s6,
        make-total garbage m4m 20 s5,
        make-total garbage m1m 50 s4,
        make-total garbage m256k 200 s3,
        make-total garbage m64k 500 s2,
        make-total garbage m16k 1000 s1,
        make-total garbage m4k 5000 s0,
      );
      classes = Classes-built _ (
        mid m4k (
            make-old garbage m64k 500 s2 m4k
              (make-old garbage m16k 1000 s1 m4k (make-new garbage m4k 5000 s0))),
        mid m16k (make-old garbage m64k 500 s2 m16k (make-new garbage m16k 1000 s1)),
        mid m64k (make-new garbage m64k 500 s2),
        old m256k (make-old garbage m1m 50 s4 m256k (make-new garbage m256k 200 s3)),
        old m1m (make-new garbage m1m 50 s4),
        make-old garbage m8m 10 s6 m4m (make-new garbage m4m 20 s5),
        make-new garbage m8m 10 s6,
      );
    }

-- The same for a request of any size.
abbrev pub Allocated : ℕ → BufPool → Alloc → Type 0
Allocated n s (got b s') =
    (n ≤ b.capacity)
    × (size_class b.capacity ≡ some b.capacity)
    × IsClean b.capacity b
    × IsStocked s'
Allocated n s null = m8m < n
Allocated n s exits = (cap : ℕ) × (size_class n ≡ some cap) × IsUsedUp cap s

Granted-Allocated :
    (n cap : ℕ) (s : BufPool) (a : Alloc)
    → size_class n ≡ some cap
    → size_class cap ≡ some cap
    → Granted n cap s a
    → Allocated n s a
Granted-Allocated n cap s (got b s') c e (clean, h, v) =
    (h, ground (arith, clean), (refl, clean.1, clean.2), v)
Granted-Allocated n cap s null c e g = absurd g
Granted-Allocated n cap s exits c e g = (cap, c, g)

size_class-cases :
    (n : ℕ)
    → ((size_class n ≡ none) × (m8m < n))
      ⊎ ((cap : ℕ) × (size_class n ≡ some cap) × (size_class cap ≡ some cap))
unfolding size_class
size_class-cases n = elim (Option-cases (size_class n)) [
  | inl e ↦ inl (e, ground (arith, e))
  | inr (cap, e) ↦ inr (cap, e, ground (arith, e))
]

pub alloc_buf-Allocated :
    (garbage : ℕ → ℕ) (n : ℕ) (s : BufPool) → IsStocked s → Allocated n s (alloc_buf garbage n s)
alloc_buf-Allocated garbage n s v = elim (size_class-cases n) [
  | inl (e, large) ↦ rw (alloc_buf_large garbage n s large) large
  | inr (cap, e, self) ↦
      Granted-Allocated n cap s (alloc_buf garbage n s) e self
        (alloc_buf-Granted garbage n cap s v e)
]
