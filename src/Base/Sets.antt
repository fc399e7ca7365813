-- ===== src/Base/Sets.antt =====
-- Maps whose values are sets of numbers, `hash_map<_, hash_set<_>>`. `m[k]` makes an empty set under
-- a key that is missing.
use lars_system.Base.Tests.{◌==◌, result_or}
use lars_system.Base.Lists.{contains, insert, contains-insert}
use lars_system.Base.Maps.{lookup, put, lookup-put, erase, lookup-erase}
use Prim.Native.Nat.{ℕ}
use mathlib.Core.Path.{◌≡◌}
use mathlib.Core.Bool.{Bool, ◌||◌, ◌&&◌, not}
use mathlib.Core.List.{List, [], ◌∷◌}
use native.Mathlib.Omega.{arith}

abbrev pub SetMap : Type 0
SetMap = List (ℕ × List ℕ)

-- The set under a key; the empty one if there is none.
unfoldable pub set_at : ℕ → SetMap → List ℕ
set_at k m = result_or (lookup k m) []

-- `m[k].insert(x)`.
unfoldable pub insert_at : ℕ → ℕ → SetMap → SetMap
unfolding set_at
insert_at k x m = put k (insert x (set_at k m)) m

-- `x` is in the set under `k`.
unfoldable pub holds : ℕ → ℕ → SetMap → Bool
unfolding set_at
holds k x m = contains x (set_at k m)

-- Each of `xs` is put into the set under `k`.
unfoldable pub insert_all : ℕ → List ℕ → SetMap → SetMap
insert_all k [] m = m
insert_all k (x ∷ xs) m = insert_all k xs (insert_at k x m)

pub holds-insert_at :
    (k x j y : ℕ) (m : SetMap)
    → holds j y (insert_at k x m) ≡ (((k == j) && (x == y)) || holds j y m)
unfolding holds insert_at set_at
holds-insert_at k x j y m = ground (
  arith,
  lookup-put k j (insert x (result_or (lookup k m) [])) m,
  contains-insert y x (result_or (lookup k m) []),
)

pub holds-insert_all :
    (k : ℕ) (xs : List ℕ) (j y : ℕ) (m : SetMap)
    → holds j y (insert_all k xs m) ≡ (((k == j) && contains y xs) || holds j y m)
unfolding insert_all contains
holds-insert_all k [] j y m = ground arith
holds-insert_all k (x ∷ xs) j y m =
    ground (arith, holds-insert_all k xs j y (insert_at k x m), holds-insert_at k x j y m)

pub holds-erase : (k j y : ℕ) (m : SetMap) → holds j y (erase k m) ≡ (not (k == j) && holds j y m)
unfolding holds set_at contains
holds-erase k j y m = ground (arith, lookup-erase k j m)
