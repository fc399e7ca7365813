-- ===== src/Reactor/IoBuf/Bytes.antt =====
-- What the operations of io_buf.cpp do to the data of a buffer.
use mathlib.Core.Path.{ap₂}
use lars_system.Base.{
  Bool-cases, inl, inr, ℕ, zero, suc, ◌+◌, ◌-◌, ◌≤◌, ◌<◌, ◌≡◌, refl, ◌==◌, if◌then◌else◌, List, [],
  ◌∷◌, ◌++◌, length, drop, arith, ap, sym, ◌∙◌,
}
use lars_system.Reactor.IoBuf.{IoBuf, move_down, adjust, copy, pop, poke, append, bytes, contents}

pub length-bytes : (f : ℕ → ℕ) (o n : ℕ) → length (bytes f o n) ≡ n
unfolding bytes
length-bytes f o zero = refl
length-bytes f o (suc n) = ap suc (length-bytes f (suc o) n)

bytes-congr :
    (f g : ℕ → ℕ) (o p n : ℕ)
    → ((i : ℕ) → i < n → f (o + i) ≡ g (p + i))
    → bytes f o n ≡ bytes g p n
unfolding bytes
bytes-congr f g o p zero h = refl
bytes-congr f g o p (suc n) h =
    ground (arith, h 0, bytes-congr f g (suc o) (suc p) n (λ i b. ground (arith, h (suc i))))

pub bytes-add : (f : ℕ → ℕ) (o n k : ℕ) → bytes f o (n + k) ≡ bytes f o n ++ bytes f (o + n) k
unfolding bytes
bytes-add f o zero k = ground arith
bytes-add f o (suc n) k =
    let e : suc n + k ≡ suc (n + k) = omega arith in
    let e' : o + suc n ≡ suc o + n = omega arith in
    rw (e, e') (ap (λ l. f o ∷ l) (bytes-add f (suc o) n k))

poke_below : (f : ℕ → ℕ) (p : ℕ) (xs : List ℕ) (i : ℕ) → i < p → poke f p xs i ≡ f i
unfolding poke
poke_below f p [] i h = refl
poke_below f p (x ∷ xs) i h = ground (arith, poke_below f (suc p) xs i)

bytes-poke_below :
    (f : ℕ → ℕ) (o n p : ℕ) (xs : List ℕ) → o + n ≤ p → bytes (poke f p xs) o n ≡ bytes f o n
bytes-poke_below f o n p xs h =
    bytes-congr (poke f p xs) f o o n (λ i b. poke_below f p xs (o + i) (omega arith))

pub bytes-poke_at : (f : ℕ → ℕ) (p : ℕ) (xs : List ℕ) → bytes (poke f p xs) p (length xs) ≡ xs
unfolding bytes poke
bytes-poke_at f p [] = refl
bytes-poke_at f p (x ∷ xs) =
    let rest =
      bytes-congr (poke f p (x ∷ xs)) (poke f (suc p) xs) (suc p) (suc p) (length xs)
        (λ i b. ground arith) in
    ground (arith, rest, bytes-poke_at f (suc p) xs)

pub drop-bytes : (f : ℕ → ℕ) (o n k : ℕ) → k ≤ n → drop k (bytes f o n) ≡ bytes f (o + k) (n - k)
unfolding bytes
drop-bytes f o n zero h = ground arith
drop-bytes f o zero (suc k) h = ground arith
drop-bytes f o (suc n) (suc k) h = ground (arith, drop-bytes f (suc o) n k)

pub length-contents : (b : IoBuf) → length (contents b) ≡ b.length
unfolding contents
length-contents b = length-bytes b.block b.head b.length

-- Data put behind the window ends the contents.
pub contents-append : (xs : List ℕ) (b : IoBuf) → contents (append xs b) ≡ contents b ++ xs
unfolding contents append
contents-append xs b =
    bytes-add (poke b.block (b.head + b.length) xs) b.head b.length (length xs)
    ∙ ap₂ ◌++◌ (bytes-poke_below b.block b.head b.length (b.head + b.length) xs (omega arith))
        (bytes-poke_at b.block (b.head + b.length) xs)

-- Data taken from the front is dropped from the contents.
pub contents-pop :
    (len : ℕ) (b : IoBuf) → len ≤ b.length → contents (pop len b) ≡ drop len (contents b)
unfolding contents pop
contents-pop len b h = sym (drop-bytes b.block b.head b.length len h)

-- A move to the front of the block, and a copy from another block, keep the contents.
pub contents-adjust : (b : IoBuf) → contents (adjust b) ≡ contents b
unfolding contents adjust move_down
contents-adjust b = elim (Bool-cases (b.head == 0)) [
  | inl front ↦ rw front
  | inr back ↦ rw back (
      bytes-congr (if b.length == 0 then b.block else move_down b.block b.block b.head b.length)
        b.block 0 b.head b.length (λ i h. ground arith))
]

pub contents-copy : (b other : IoBuf) → contents (copy b other) ≡ contents other
unfolding contents copy move_down
contents-copy b other =
    bytes-congr (move_down b.block other.block other.head other.length) other.block 0 other.head
      other.length (λ i h. ground arith)
