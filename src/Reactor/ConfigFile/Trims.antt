-- ===== src/Reactor/ConfigFile/Trims.antt =====
-- `trim` of config_file.cpp takes the spaces off both ends of a text, and nothing else.
use mathlib.Core.List.{append_assoc, append-nil}
use lars_system.Base.{ℕ, ◌≡◌, refl, sym, ap, ◌∙◌, true, [], ◌∷◌, ◌++◌, List-cases, inl, inr}
use lars_system.Reactor.ConfigFile.{Text, is_space, trim_left, trim_right, keep, trim}

abbrev pub AllSpaces : Text → Type 0
AllSpaces [] = Unit {0}
AllSpaces (c ∷ cs) = (is_space c ≡ true) × AllSpaces cs

-- A text without a space at its start, and without one at its end.
abbrev pub IsTrimmed : Text → Type 0
IsTrimmed t = (trim_left t ≡ t) × (trim_right t ≡ t)

trim_left-spaces : (ws t : Text) → AllSpaces ws → trim_left (ws ++ t) ≡ trim_left t
unfolding trim_left
trim_left-spaces [] t h = refl
trim_left-spaces (w ∷ ws) t (h, hs) = rw h (trim_left-spaces ws t hs)

trim_right-none : (ws : Text) → AllSpaces ws → trim_right ws ≡ []
unfolding trim_right keep
trim_right-none [] h = refl
trim_right-none (w ∷ ws) (h, hs) = rw (trim_right-none ws hs, h) refl

trim_right-spaces : (t ws : Text) → AllSpaces ws → trim_right (t ++ ws) ≡ trim_right t
unfolding trim_right
trim_right-spaces [] ws h = trim_right-none ws h
trim_right-spaces (c ∷ cs) ws h = ap (keep c) (trim_right-spaces cs ws h)

keep-cons : (w c : ℕ) (cs : Text) → keep w (c ∷ cs) ≡ w ∷ c ∷ cs
unfolding keep
keep-cons w c cs = refl

trim_right-before :
    (ws t : Text) (c : ℕ) (cs : Text)
    → t ≡ c ∷ cs
    → trim_right t ≡ t
    → trim_right (ws ++ t) ≡ ws ++ t
unfolding trim_right
trim_right-before [] t c cs e h = h
trim_right-before (w ∷ []) t c cs e h =
    ap (keep w) (h ∙ e) ∙ keep-cons w c cs ∙ ap (λ l. w ∷ l) (sym e)
trim_right-before (w ∷ v ∷ ws) t c cs e h =
    ap (keep w) (trim_right-before (v ∷ ws) t c cs e h) ∙ keep-cons w v (ws ++ t)

-- Spaces around a text without spaces at its ends are what `trim` takes off.
pub trim-spaces :
    (before t after : Text)
    → AllSpaces before
    → IsTrimmed t
    → AllSpaces after
    → trim (before ++ (t ++ after)) ≡ t
unfolding trim trim_left
trim-spaces before t after b (l, r) a =
    ap trim_left
      (ap trim_right (sym (append_assoc before t after)) ∙ trim_right-spaces (before ++ t) after a)
    ∙ elim (List-cases t) [
      | inl e ↦
          ap (λ u. trim_left (trim_right (before ++ u))) e
          ∙ ap (λ u. trim_left (trim_right u)) (append-nil before)
          ∙ ap trim_left (trim_right-none before b)
          ∙ sym e
      | inr (c, cs, e) ↦
          ap trim_left (trim_right-before before t c cs e r) ∙ trim_left-spaces before t b ∙ l
    ]

-- Spaces before a text, whatever it is.
pub trim-before : (before t : Text) → AllSpaces before → trim (before ++ t) ≡ trim t
unfolding trim trim_right trim_left keep
trim-before [] t h = refl
trim-before (w ∷ ws) t (h, hs) = first (trim_right (ws ++ t)) ∙ trim-before ws t hs
  where
    first : (xs : Text) → trim_left (keep w xs) ≡ trim_left xs
    first [] = rw h refl
    first (x ∷ xs) = rw h refl
