-- ===== src/Base/Maps.antt =====
-- Hash maps with numeric keys, as association lists; iteration is in the list's order.
use Prim.Native.Nat.{ℕ, ◌+◌}
use mathlib.Core.Path.{◌≡◌, refl, sym}
use mathlib.Core.Bool.{true, false, false≢true}
use mathlib.Core.List.{List, [], ◌∷◌}
use mathlib.Core.Option.{Option, none, some}
use native.Mathlib.Omega.{arith}
use lars_system.Base.Lists.{is_nil, count, contains}
use mathlib.Core.Logic.{inl, inr}
use lars_system.Base.Tests.{◌==◌, if◌then◌else◌, Bool-cases}

module _ {ℓ} {V : Type ℓ} where
  -- `find`: the value under the key.
  unfoldable pub lookup : ℕ → List (ℕ × V) → Option V
  lookup k [] = none
  lookup k ((j, v) ∷ m) = if j == k then some v else lookup k m

  -- `m[k] = v`.
  unfoldable pub put : ℕ → V → List (ℕ × V) → List (ℕ × V)
  put k v [] = (k, v) ∷ []
  put k v ((j, w) ∷ m) = if j == k then (k, v) ∷ m else (j, w) ∷ put k v m

  -- `m.erase(k)`.
  unfoldable pub erase : ℕ → List (ℕ × V) → List (ℕ × V)
  erase k [] = []
  erase k ((j, w) ∷ m) = if j == k then erase k m else (j, w) ∷ erase k m

  unfoldable pub keys : List (ℕ × V) → List ℕ
  keys [] = []
  keys ((j, w) ∷ m) = j ∷ keys m

  pub lookup-put :
      (k j : ℕ) (v : V) (m : List (ℕ × V))
      → lookup j (put k v m) ≡ (if k == j then some v else lookup j m)
  unfolding lookup put
  lookup-put k j v [] = refl
  lookup-put k j v ((i, w) ∷ m) = ground (arith, lookup-put k j v m)

  pub lookup-erase :
      (k j : ℕ) (m : List (ℕ × V)) → lookup j (erase k m) ≡ (if k == j then none else lookup j m)
  unfolding lookup erase
  lookup-erase k j [] = ground arith
  lookup-erase k j ((i, w) ∷ m) = ground (arith, lookup-erase k j m)

  -- A map that is not empty has an entry.
  pub first_entry :
      (m : List (ℕ × V)) → is_nil m ≡ false → (k : ℕ) × (v : V) × (lookup k m ≡ some v)
  unfolding lookup
  first_entry [] h = absurd (false≢true (sym h))
  first_entry ((j, w) ∷ m) h = (j, w, ground arith)

  pub count-keys-none : (k : ℕ) (m : List (ℕ × V)) → lookup k m ≡ none → count k (keys m) ≡ 0
  unfolding lookup keys count
  count-keys-none k [] h = refl
  count-keys-none k ((j, w) ∷ m) h = ground (arith, count-keys-none k m)

  pub count-keys-put :
      (k j : ℕ) (v : V) (m : List (ℕ × V))
      → lookup j m ≡ none
      → count k (keys (put j v m)) ≡ (if j == k then 1 else 0) + count k (keys m)
  unfolding lookup keys put count
  count-keys-put k j v [] h = refl
  count-keys-put k j v ((i, w) ∷ m) h = ground (arith, count-keys-put k j v m)

  -- A key that is listed has a value.
  pub lookup-keys :
      (k : ℕ) (m : List (ℕ × V)) → contains k (keys m) ≡ true → (v : V) × (lookup k m ≡ some v)
  unfolding lookup keys contains
  lookup-keys k [] h = absurd (false≢true h)
  lookup-keys k ((j, w) ∷ m) h = elim (Bool-cases (j == k)) [
    | inl e ↦ (w, ground (arith, e))
    | inr e ↦ let r = lookup-keys k m (ground (arith, e)) in (r.0, ground (arith, e, r.1))
  ]

  pub contains-keys :
      (k : ℕ) (m : List (ℕ × V)) (v : V) → lookup k m ≡ some v → contains k (keys m) ≡ true
  unfolding lookup keys contains
  contains-keys k [] v h = ground arith
  contains-keys k ((j, w) ∷ m) v h = ground (arith, contains-keys k m v)
