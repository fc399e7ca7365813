-- ===== src/Reactor/ConfigFile/Sections.antt =====
-- `Load`, `GetString` and the other readers of config_file.cpp: what a line of a file does to them.
use mathlib.Core.Path.{ap₂}
use lars_system.Base.{
  ◌≡◌, ◌≢◌, refl, sym, ap, ◌∙◌, ◌&&◌, true, false, if◌then◌else◌, Option, none, some, List, [], ◌∷◌,
  arith, Bool-cases, Option-cases, inl, inr, ◌>>=◌, Returns,
}
use lars_system.Reactor.ConfigFile.{
  Text, same_text, find, assign, Section, Config, open_section, put_key, is_skipped, load_pair,
  load_entry, load_line, load_lines, is_section, split_at_equals, trim, value_of, load,
}

pub same_text_refl : (a : Text) → same_text a a ≡ true
unfolding same_text
same_text_refl [] = refl
same_text_refl (c ∷ cs) = ground (arith, same_text_refl cs)

same_text-equal : (a b : Text) → same_text a b ≡ true → a ≡ b
unfolding same_text
same_text-equal [] [] h = refl
same_text-equal [] (d ∷ ds) h = absurd (ground arith)
same_text-equal (c ∷ cs) [] h = absurd (ground arith)
same_text-equal (c ∷ cs) (d ∷ ds) h =
    ap₂ ◌∷◌ (ground (arith, h)) (same_text-equal cs ds (ground (arith, h)))

same_text-sym : (a b : Text) → same_text a b ≡ same_text b a
unfolding same_text
same_text-sym [] [] = refl
same_text-sym [] (d ∷ ds) = refl
same_text-sym (c ∷ cs) [] = refl
same_text-sym (c ∷ cs) (d ∷ ds) = ground (arith, same_text-sym cs ds)

pub find-assign :
    {V : Type 0} (k j : Text) (v : V) (m : List (Text × V))
    → find j (assign k v m) ≡ (if same_text k j then some v else find j m)
unfolding find assign
find-assign k j v [] = refl
find-assign k j v ((i, w) ∷ m) = elim (Bool-cases (same_text i k)) [
  | inl e ↦
      let same : same_text i j ≡ same_text k j = ap (λ t. same_text t j) (same_text-equal i k e) in
      elim (Bool-cases (same_text k j)) [
        | inl t ↦ rw (e, same, t) refl
        | inr t ↦ rw (e, same, t) refl
      ]
  | inr e ↦ elim (Bool-cases (same_text k j)) [
    | inl t ↦
        let other : same_text i j ≡ false = ap (same_text i) (sym (same_text-equal k j t)) ∙ e in
        rw (e, other, find-assign k j v m, t) refl
    | inr t ↦ rw (e, find-assign k j v m, t) refl
  ]
]

-- The lookup of a key in the map after a key was put into a section that is there.
pub value_of-assign :
    (name key : Text) (value : Text) (s : Section) (m : Config) (n j : Text)
    → find name m ≡ some s
    → value_of n j (assign name (assign key value s) m)
      ≡ (if same_text name n && same_text key j then some value else value_of n j m)
unfolding value_of
value_of-assign name key value s m n j e = elim (Bool-cases (same_text name n)) [
  | inl t ↦
      let here : find n m ≡ some s = ap (λ u. find u m) (sym (same_text-equal name n t)) ∙ e in
      rw (find-assign name n (assign key value s) m, t, here) (find-assign key j value s)
  | inr t ↦ rw (find-assign name n (assign key value s) m, t) refl
]

-- A line `key = value` in a section: after it the section has the value under the key, both without
-- the spaces around them, and whatever stands under another section or another key is as before.
pub load_line-entry :
    (line key value name : Text) (s : Section) (m : Config) (n j : Text)
    → is_section line ≡ none
    → split_at_equals line ≡ some (key, value)
    → is_skipped (trim key) ≡ false
    → find name m ≡ some s
    → Returns
        (λ r.
          (r.0 ≡ some name)
          × (value_of n j r.1 ≡ (
              if same_text name n && same_text (trim key) j
              then some (trim value)
              else value_of n j m)))
        (load_line line (is_section line) (some name, m))
unfolding load_line load_entry load_pair put_key
load_line-entry line key value name s m n j no_head split kept there =
    rw (no_head, split, kept, there)
      (refl, value_of-assign name (trim key) (trim value) s m n j there)

-- A file that starts with a line `key = value`, before any section, makes `Load` use a null pointer.
pub load_faults :
    (line key value : Text) (more : List Text)
    → is_section line ≡ none
    → split_at_equals line ≡ some (key, value)
    → is_skipped (trim key) ≡ false
    → load (line ∷ more) ≡ none
unfolding load load_lines load_line load_entry load_pair put_key
load_faults line key value more no_head split kept = rw (no_head, split, kept) refl

pub opened : (name : Text) (m : Config) → find name (assign name [] m) ≢ none
opened name m h = ground (arith, h, find-assign name name [] m, same_text_refl name)

pub new_section :
    (name : Text) (m : Config) (n j : Text)
    → find name m ≡ none
    → (find n (assign name [] m) >>= λ s. find j s) ≡ (find n m >>= λ s. find j s)
unfolding find
new_section name m n j e = elim (Bool-cases (same_text name n)) [
  | inl t ↦
      let gone : find n m ≡ none = ap (λ u. find u m) (sym (same_text-equal name n t)) ∙ e in
      rw (find-assign name n [] m, t, gone) refl
  | inr t ↦ rw (find-assign name n [] m, t) refl
]

-- The head of a section makes it the present one, and keeps every value that is there.
pub load_line-section :
    (line name : Text) (current : Option Text) (m : Config) (n j : Text)
    → is_section line ≡ some name
    → Returns
        (λ r. (r.0 ≡ some name) × (find name r.1 ≢ none) × (value_of n j r.1 ≡ value_of n j m))
        (load_line line (is_section line) (current, m))
unfolding load_line open_section value_of
load_line-section line name current m n j head = elim (Option-cases (find name m)) [
  | inl e ↦ rw (head, e) (refl, opened name m, new_section name m n j e)
  | inr (s, e) ↦ rw (head, e) (refl, λ h. ground (arith, e, h), refl)
]
