-- ===== src/Reactor/ConfigFile/Lines.antt =====
-- The lines of a configuration file as one writes them, and how config_file.cpp reads each.
use mathlib.Core.List.{append-nil, append_assoc}
use lars_system.Base.{
  ℕ, ◌≡◌, ◌≢◌, refl, sym, ap, ◌∙◌, ◌==◌, leb, false, none, some, [], ◌∷◌, ◌++◌, length,
  length-append, contains, contains-append, true, ◌||◌, arith, Bool-cases, Option-cases, inl, inr,
}
use lars_system.Reactor.ConfigFile.{
  Text, is_space, keep, trim_left, trim_right, trim, last_or, but_last, in_brackets, is_section,
  split_at_equals, is_skipped, Loading, load_pair, load_entry, load_line,
}
use lars_system.Reactor.ConfigFile.Trims.{AllSpaces, IsTrimmed, trim-spaces, trim-before}

-- The spaces of a line: before and after what stands in it, and on both sides of the `=`.
pub record Gaps : Type 0 where
  pub before : Text
  pub left : Text
  pub right : Text
  pub after : Text

pub record AreGaps (g : Gaps) : Type 0 where
  pub spaces_before : AllSpaces g.before
  pub spaces_left : AllSpaces g.left
  pub spaces_right : AllSpaces g.right
  pub spaces_after : AllSpaces g.after

-- `[name]`.
abbrev pub heading_text : Text → Text
heading_text name = 91 ∷ (name ++ 93 ∷ [])

abbrev pub heading_line : Text → Text → Text → Text
heading_line before name after = before ++ (heading_text name ++ after)

-- What stands before and after the `=` of a line.
abbrev key_part : Gaps → Text → Text
key_part g key = g.before ++ (key ++ g.left)

abbrev value_part : Gaps → Text → Text
value_part g value = g.right ++ (value ++ g.after)

abbrev pub entry_line : Gaps → Text → Text → Text
entry_line g key value = key_part g key ++ 61 ∷ value_part g value

-- `#` and `;`.
abbrev pub IsMark : ℕ → Type 0
IsMark c = ((c == 35) || (c == 59)) ≡ true

-- A name of a section has no space at its ends.
abbrev pub IsName : Text → Type 0
IsName name = (name ≢ []) × IsTrimmed name

-- A key has no space at its ends and no `=`, and does not start like a heading or a comment.
abbrev pub IsKey : Text → Type 0
IsKey [] = ⊥
IsKey (c ∷ cs) =
    (is_space c ≡ false)
    × ((c == 91) ≡ false)
    × (is_skipped (c ∷ cs) ≡ false)
    × (trim_right (c ∷ cs) ≡ c ∷ cs)
    × (contains 61 (c ∷ cs) ≡ false)

trim_cons : (c : ℕ) (cs : Text) → is_space c ≡ false → trim (c ∷ cs) ≡ c ∷ trim_right cs
unfolding trim trim_right trim_left keep
trim_cons c cs e = ap trim_left (kept (trim_right cs)) ∙ first (trim_right cs)
  where
    kept : (xs : Text) → keep c xs ≡ c ∷ xs
    kept [] = rw e refl
    kept (x ∷ xs) = refl

    first : (xs : Text) → trim_left (c ∷ xs) ≡ c ∷ xs
    first xs = rw e refl

trim-IsTrimmed : (t : Text) → IsTrimmed t → trim t ≡ t
unfolding trim
trim-IsTrimmed t (l, r) = ap trim_left r ∙ l

-- A line that starts with another character than a space or `[` is no heading.
no_section :
    (c : ℕ) (cs : Text) → is_space c ≡ false → (c == 91) ≡ false → is_section (c ∷ cs) ≡ none
unfolding is_section in_brackets
no_section c cs e other = ap in_brackets (trim_cons c cs e) ∙ outside (trim_right cs)
  where
    outside : (xs : Text) → in_brackets (c ∷ xs) ≡ none
    outside xs = elim (Bool-cases (leb (length (c ∷ xs)) 2)) [
      | inl short ↦ rw short refl
      | inr long ↦ rw (long, other) refl
    ]

trim_right-bracket : (xs : Text) → trim_right (xs ++ 93 ∷ []) ≡ xs ++ 93 ∷ []
unfolding trim_right keep is_space
trim_right-bracket [] = refl
trim_right-bracket (x ∷ []) = refl
trim_right-bracket (x ∷ y ∷ ys) = ap (keep x) (trim_right-bracket (y ∷ ys))

last_or-bracket : (c : ℕ) (xs : Text) → last_or c (xs ++ 93 ∷ []) ≡ 93
unfolding last_or
last_or-bracket c [] = refl
last_or-bracket c (x ∷ xs) = last_or-bracket x xs

but_last-bracket : (xs : Text) → but_last (xs ++ 93 ∷ []) ≡ xs
unfolding but_last
but_last-bracket [] = refl
but_last-bracket (x ∷ []) = refl
but_last-bracket (x ∷ y ∷ ys) = ap (λ l. x ∷ l) (but_last-bracket (y ∷ ys))

in_brackets-heading : (name : Text) → IsName name → in_brackets (heading_text name) ≡ some name
unfolding in_brackets
in_brackets-heading [] (some_name, t) = absurd (some_name refl)
in_brackets-heading (c ∷ cs) (_, t) =
    let long : leb (length (heading_text (c ∷ cs))) 2 ≡ false =
      ground (arith, length-append cs (93 ∷ [])) in
    rw (long, last_or-bracket 91 (c ∷ cs), but_last-bracket (c ∷ cs), trim-IsTrimmed (c ∷ cs) t)
      refl

heading_text-IsTrimmed : (name : Text) → IsTrimmed (heading_text name)
unfolding trim_left trim_right is_space keep
heading_text-IsTrimmed name = (refl, ap (keep 91) (trim_right-bracket name) ∙ kept name)
  where
    kept : (xs : Text) → keep 91 (xs ++ 93 ∷ []) ≡ 91 ∷ (xs ++ 93 ∷ [])
    kept [] = refl
    kept (x ∷ xs) = refl

pub is_section-heading :
    (before name after : Text)
    → AllSpaces before
    → IsName name
    → AllSpaces after
    → is_section (heading_line before name after) ≡ some name
unfolding is_section
is_section-heading before name after b v a =
    ap in_brackets (trim-spaces before (heading_text name) after b (heading_text-IsTrimmed name) a)
    ∙ in_brackets-heading name v

-- Spaces do not make a heading.
is_section-before : (ws t : Text) → AllSpaces ws → is_section (ws ++ t) ≡ is_section t
unfolding is_section
is_section-before ws t h = ap in_brackets (trim-before ws t h)

pub is_section-entry :
    (g : Gaps) (key value : Text)
    → AreGaps g
    → IsKey key
    → is_section (entry_line g key value) ≡ none
is_section-entry g [] value a k = absurd k
is_section-entry g (c ∷ cs) value a (e, other, _, _, _) =
    ap is_section (append_assoc g.before ((c ∷ cs) ++ g.left) (61 ∷ value_part g value))
    ∙ is_section-before g.before (((c ∷ cs) ++ g.left) ++ 61 ∷ value_part g value) a.spaces_before
    ∙ no_section c ((cs ++ g.left) ++ 61 ∷ value_part g value) e other

no_equals : (ws : Text) → AllSpaces ws → contains 61 ws ≡ false
unfolding contains is_space
no_equals [] h = refl
no_equals (w ∷ ws) (h, hs) = ground (arith, h, no_equals ws hs)

split_at_equals-none :
    (xs t : Text)
    → contains 61 xs ≡ false
    → split_at_equals t ≡ none
    → split_at_equals (xs ++ t) ≡ none
unfolding split_at_equals contains
split_at_equals-none [] t h e = e
split_at_equals-none (x ∷ xs) t h e =
    let other : (x == 61) ≡ false = ground (arith, h) in
    rw (other, split_at_equals-none xs t (ground (arith, h)) e) refl

split_at_equals-some :
    (xs t key value : Text)
    → contains 61 xs ≡ false
    → split_at_equals t ≡ some (key, value)
    → split_at_equals (xs ++ t) ≡ some (xs ++ key, value)
unfolding split_at_equals contains
split_at_equals-some [] t key value h e = e
split_at_equals-some (x ∷ xs) t key value h e =
    let other : (x == 61) ≡ false = ground (arith, h) in
    rw (other, split_at_equals-some xs t key value (ground (arith, h)) e) refl

split_at_equals-entry :
    (g : Gaps) (key value : Text)
    → AreGaps g
    → contains 61 key ≡ false
    → split_at_equals (entry_line g key value) ≡ some (key_part g key, value_part g value)
unfolding split_at_equals
split_at_equals-entry g key value a h =
    split_at_equals-some (key_part g key) (61 ∷ value_part g value) [] (value_part g value)
      (ground (
        arith,
        h,
        contains-append 61 g.before (key ++ g.left),
        contains-append 61 key g.left,
        no_equals g.before a.spaces_before,
        no_equals g.left a.spaces_left,
      ))
      refl
    ∙ ap (λ t. some (t, value_part g value)) (append-nil (key_part g key))

-- A line with a key, `=` and a value puts just this value under just this key.
pub load_entry-entry :
    (g : Gaps) (key value : Text) (s : Loading)
    → AreGaps g
    → IsKey key
    → IsTrimmed value
    → load_entry (split_at_equals (entry_line g key value)) s ≡ load_pair key value s
unfolding load_entry trim_left
load_entry-entry g [] value s a k v = absurd k
load_entry-entry g (c ∷ cs) value s a (e, _, _, r, none_in) v =
    rw
      (
        split_at_equals-entry g (c ∷ cs) value a none_in,
        trim-spaces g.before (c ∷ cs) g.left a.spaces_before (trimmed, r) a.spaces_left,
        trim-spaces g.right value g.after a.spaces_right v a.spaces_after,
      )
      refl
  where
    trimmed : trim_left (c ∷ cs) ≡ c ∷ cs
    trimmed = rw e refl

-- A comment changes nothing.
pub load_line-comment :
    (before : Text) (c : ℕ) (t : Text) (s : Loading)
    → AllSpaces before
    → IsMark c
    → load_line (before ++ c ∷ t) (is_section (before ++ c ∷ t)) s ≡ some s
unfolding load_line load_entry load_pair split_at_equals is_skipped is_space
load_line-comment before c t (current, m) b mark =
    let visible : is_space c ≡ false = ground (arith, mark) in
    let no_heading =
      is_section-before before (c ∷ t) b ∙ no_section c t visible (ground (arith, mark)) in
    let other : (c == 61) ≡ false = ground (arith, mark) in
    elim (Option-cases (split_at_equals t)) [
      | inl e ↦
          let no_pair : split_at_equals (c ∷ t) ≡ none = rw (other, e) refl in
          rw (no_heading, split_at_equals-none before (c ∷ t) (no_equals before b) no_pair) refl
      | inr ((key, value), e) ↦
          let pair : split_at_equals (c ∷ t) ≡ some (c ∷ key, value) = rw (other, e) refl in
          rw
            (
              no_heading,
              split_at_equals-some before (c ∷ t) (c ∷ key) value (no_equals before b) pair,
              trim-before before (c ∷ key) b,
              trim_cons c key visible,
              mark,
            )
            refl
    ]

-- Nor do spaces alone.
pub load_line-blank :
    (ws : Text) (s : Loading) → AllSpaces ws → load_line ws (is_section ws) s ≡ some s
unfolding load_line load_entry is_section trim trim_left trim_right in_brackets split_at_equals
load_line-blank ws (current, m) h =
    let no_heading : is_section ws ≡ none =
      ap is_section (sym (append-nil ws)) ∙ is_section-before ws [] h in
    let no_pair : split_at_equals ws ≡ none =
      ap split_at_equals (sym (append-nil ws)) ∙ split_at_equals-none ws [] (no_equals ws h) refl in
    rw (no_heading, no_pair) refl
