-- ===== src/Base/Words.antt =====
-- Machine words. An `int` and a `uint32_t` are 32-bit patterns, numbers below 2^32; an `int` is
-- negative when its pattern is 2^31 or more. A `uint64_t` is a number below 2^64.
use Prim.Native.Char.{code}
use Prim.Native.String.{String}
use Prim.Native.Nat.{ℕ, ◌+◌, ◌*◌, ◌/◌, ◌%◌, ◌^◌, ◌-◌, ◌<◌}
use mathlib.Core.Path.{◌≡◌}
use mathlib.Core.List.{List, [], ◌∷◌}
use native.Mathlib.Omega.{arith}
use lars_system.Base.Tests.{ltb, if◌then◌else◌}

-- `n++` on a `uint32_t`.
unfoldable pub inc32 : ℕ → ℕ
inc32 n = (n + 1) % 2 ^ 32

unfoldable pub add32 : ℕ → ℕ → ℕ
add32 a b = (a + b) % 2 ^ 32

-- `(uint64_t)x` for an `int` x: the sign is extended.
unfoldable pub sign_extend : ℕ → ℕ
sign_extend x = if ltb x (2 ^ 31) then x else x + (2 ^ 64 - 2 ^ 32)

-- `((uint64_t)hi << 32) + lo` for `int` values: the key of a module/command pair, and of an
-- address/port pair.
unfoldable pub pack_key : ℕ → ℕ → ℕ
unfolding sign_extend
pack_key hi lo = (sign_extend hi * 2 ^ 32 % 2 ^ 64 + sign_extend lo) % 2 ^ 64

-- `int(key >> 32)` and `int(key)`.
unfoldable pub key_high : ℕ → ℕ
key_high key = key / 2 ^ 32 % 2 ^ 32

unfoldable pub key_low : ℕ → ℕ
key_low key = key % 2 ^ 32

pub pack_key-lt : (hi lo : ℕ) → pack_key hi lo < 2 ^ 64
unfolding pack_key
pack_key-lt hi lo = omega arith

-- The low half of a key is its second word.
pub key_low-pack_key : (hi lo : ℕ) → hi < 2 ^ 32 → lo < 2 ^ 32 → key_low (pack_key hi lo) ≡ lo
unfolding pack_key key_low
key_low-pack_key hi lo h l = ground arith

-- The high half is the first word, less one when the second word is negative.
pub key_high-pack_key :
    (hi lo : ℕ)
    → hi < 2 ^ 32
    → lo < 2 ^ 32
    → key_high (pack_key hi lo) ≡ (if ltb lo (2 ^ 31) then hi else (hi + (2 ^ 32 - 1)) % 2 ^ 32)
unfolding pack_key key_high
key_high-pack_key hi lo h l = ground arith

-- Different pairs have different keys.
pub pack_key_injective :
    (a b c d : ℕ)
    → a < 2 ^ 32
    → b < 2 ^ 32
    → c < 2 ^ 32
    → d < 2 ^ 32
    → pack_key a b ≡ pack_key c d
    → (a ≡ c) × (b ≡ d)
unfolding pack_key
pack_key_injective a b c d ha hb hc hd e = ground arith

-- The codes of the characters of a text.
abbrev pub codes : String → List ℕ
codes String.[] = []
codes (String.◌∷◌ c s) = code c ∷ codes s
