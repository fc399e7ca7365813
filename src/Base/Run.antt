-- ===== src/Base/Run.antt =====
-- Runs of code that can stop the process: by its own `exit(1)` (`dies`), or by a failed `assert` or
-- undefined behaviour (`faults`). System calls that a signal may interrupt.
use mathlib.Core.Path.{◌≡◌, refl, subst}
use mathlib.Core.Logic.{◌⊎◌, inl, inr}

pub data Run {ℓ} (A : Type ℓ) : Type ℓ where
  done : A → Run A
  dies : Run A
  faults : Run A

infixl 5 ◌>>=◌
abbrev pub ◌>>=◌ {ℓ κ} : {A : Type ℓ} {B : Type κ} → Run A → (A → Run B) → Run B
done a >>= f = f a
dies >>= f = dies
faults >>= f = faults

-- The run does not fault, what it returns has the property, and it ends the process only under the
-- condition `E`. With ⊥ for the condition, the run returns.
abbrev pub Safe {ℓ} : {A : Type ℓ} → Type 0 → (A → Type 0) → Run A → Type 0
Safe E P (done a) = P a
Safe E P dies = E
Safe E P faults = ⊥

pub Safe->>= {ℓ κ} :
    {A : Type ℓ} {B : Type κ} (E : Type 0) (P : A → Type 0) (Q : B → Type 0) (m : Run A)
    (f : A → Run B)
    → Safe E P m
    → ((a : A) → P a → Safe E Q (f a))
    → Safe E Q (m >>= f)
Safe->>= E P Q (done a) f h k = k a h
Safe->>= E P Q dies f h k = h
Safe->>= E P Q faults f h k = absurd h

pub Safe-mono {ℓ} :
    {A : Type ℓ} (E : Type 0) (P Q : A → Type 0) (m : Run A)
    → ((a : A) → P a → Q a)
    → Safe E P m
    → Safe E Q m
Safe-mono E P Q (done a) f h = f a h
Safe-mono E P Q dies f h = h
Safe-mono E P Q faults f h = h

pub Safe-exit {ℓ} :
    {A : Type ℓ} (E F : Type 0) (P : A → Type 0) (m : Run A) → (E → F) → Safe E P m → Safe F P m
Safe-exit E F P (done a) f h = h
Safe-exit E F P dies f h = f h
Safe-exit E F P faults f h = h

-- As for `>>=`, where what follows may use what the first run returned.
pub Safe-bind {ℓ κ} :
    {A : Type ℓ} {B : Type κ} (E : Type 0) (P : A → Type 0) (Q : B → Type 0) (m : Run A)
    (f : A → Run B)
    → Safe E P m
    → ((a : A) → m ≡ done a → P a → Safe E Q (f a))
    → Safe E Q (m >>= f)
Safe-bind E P Q (done a) f h k = k a refl h
Safe-bind E P Q dies f h k = h
Safe-bind E P Q faults f h k = absurd h

-- A run that returned has the property of its result.
pub Safe-done {ℓ} :
    {A : Type ℓ} (E : Type 0) (P : A → Type 0) (m : Run A) (a : A) → m ≡ done a → Safe E P m → P a
Safe-done E P m a e h = subst (Safe E P) e h

pub Run-cases {ℓ} :
    {A : Type ℓ} (m : Run A) → ((a : A) × (m ≡ done a)) ⊎ ((m ≡ dies) ⊎ (m ≡ faults))
Run-cases (done a) = inl (a, refl)
Run-cases dies = inr (inl refl)
Run-cases faults = inr (inr refl)

-- A system call that returns EINTR some number of times before it returns a result.
pub data Sys {ℓ} (A : Type ℓ) : Type ℓ where
  interrupted : Sys A → Sys A
  returns : A → Sys A

-- `do { r = call(); } while (r == -1 && errno == EINTR)`.
unfoldable pub retried {ℓ} : {A : Type ℓ} → Sys A → A
retried (interrupted c) = retried c
retried (returns a) = a
