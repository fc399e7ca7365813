-- ===== src/Reactor/ConfigFile/Documents.antt =====
-- `Load` of config_file.cpp on a whole file, as one writes it.
use lars_system.Base.{
  ◌≡◌, ◌≢◌, refl, ap, ◌∙◌, ◌&&◌, Bool, true, false, if◌then◌else◌, Option, none, some, List, [],
  ◌∷◌, ◌++◌, ℕ, is_some, arith, Option-cases, inl, inr, ◌>>=◌, Returns, Returns-mono,
}
use lars_system.Reactor.ConfigFile.{
  Text, same_text, find, assign, Config, open_section, put_key, is_skipped, load_pair, load_line,
  load_lines, is_section, split_at_equals, load_entry, value_of, Loading, load, trim, trim_right,
  trim_left, in_brackets,
}
use lars_system.Reactor.ConfigFile.Trims.{AllSpaces, IsTrimmed}
use lars_system.Reactor.ConfigFile.Sections.{
  opened, new_section, value_of-assign, find-assign, same_text_refl,
}
use lars_system.Reactor.ConfigFile.Lines.{
  Gaps, AreGaps, heading_line, entry_line, IsMark, load_line-blank, IsName, IsKey,
  is_section-heading, is_section-entry, load_entry-entry, load_line-comment,
}

-- What one writes in a file.
pub data Line : Type 0 where
  heading : Text → Text → Text → Line
  entry : Gaps → Text → Text → Line
  comment : Text → ℕ → Text → Line
  blank : Text → Line

abbrev pub print_line : Line → Text
print_line (heading before name after) = heading_line before name after
print_line (entry g key value) = entry_line g key value
print_line (comment before c t) = before ++ c ∷ t
print_line (blank ws) = ws

abbrev pub print : List Line → List Text
print [] = []
print (l ∷ ls) = print_line l ∷ print ls

-- Names, keys and values are ones that can be written, the rest is spaces, a comment starts with its
-- mark, and no entry stands before the first heading; the first argument tells whether there was one.
abbrev pub IsReadable : Bool → List Line → Type 0
IsReadable headed [] = Unit {0}
IsReadable headed (heading before name after ∷ ls) =
    AllSpaces before × IsName name × AllSpaces after × IsReadable true ls
IsReadable false (entry g key value ∷ ls) = ⊥
IsReadable true (entry g key value ∷ ls) =
    AreGaps g × IsKey key × IsTrimmed value × IsReadable true ls
IsReadable headed (comment before c t ∷ ls) = AllSpaces before × IsMark c × IsReadable headed ls
IsReadable headed (blank ws ∷ ls) = AllSpaces ws × IsReadable headed ls

-- The last value that the lines write under a section and a key, or an earlier one; the third
-- argument is the present section.
unfoldable pub last_value : Text → Text → Option Text → Option Text → List Line → Option Text
last_value n j current v [] = v
last_value n j current v (heading before name after ∷ ls) = last_value n j (some name) v ls
last_value n j none v (entry g key value ∷ ls) = last_value n j none v ls
last_value n j (some name) v (entry g key value ∷ ls) =
    let v' = if same_text name n && same_text key j then some value else v in
    last_value n j (some name) v' ls
last_value n j current v (comment before c t ∷ ls) = last_value n j current v ls
last_value n j current v (blank ws ∷ ls) = last_value n j current v ls

-- The present section is in the map.
abbrev IsPresent : Option Text → Config → Type 0
IsPresent none m = Unit {0}
IsPresent (some name) m = find name m ≢ none

abbrev Means : Option Text → Config → List Line → Loading → Type 0
Means current m doc r =
    (n j : Text) → value_of n j r.1 ≡ last_value n j current (value_of n j m) doc

-- A heading keeps every value, and its section is there after it.
open_section-keeps :
    (name : Text) (m : Config)
    → (find name (open_section name m) ≢ none)
      × ((n j : Text) → value_of n j (open_section name m) ≡ value_of n j m)
unfolding open_section value_of
open_section-keeps name m = elim (Option-cases (find name m)) [
  | inl e ↦ rw e (opened name m, λ n j. new_section name m n j e)
  | inr (s, e) ↦ rw e ((λ h. ground (arith, e, h)), λ n j. refl)
]

-- The section is still there after a key was put into it, and the values are as one expects.
load_pair-puts :
    (key value name : Text) (m : Config)
    → is_skipped key ≡ false
    → find name m ≢ none
    → (m' : Config) × (load_pair key value (some name, m) ≡ some (some name, m'))
      × (find name m' ≢ none)
      × ((n j : Text)
          → value_of n j m'
            ≡ (if same_text name n && same_text key j then some value else value_of n j m))
unfolding load_pair put_key
load_pair-puts key value name m kept there = elim (Option-cases (find name m)) [
  | inl e ↦ absurd (there e)
  | inr (s, e) ↦ (
    assign name (assign key value s) m,
    rw (kept, e) refl,
    (λ h. ground (arith, h, find-assign name name (assign key value s) m, same_text_refl name)),
    λ n j. value_of-assign name key value s m n j e,
  )
]

key-not_skipped : (key : Text) → IsKey key → is_skipped key ≡ false
key-not_skipped [] k = absurd k
key-not_skipped (c ∷ cs) (_, _, kept, _, _) = kept

load_lines-Means :
    (doc : List Line) (current : Option Text) (m : Config)
    → IsReadable (is_some current) doc
    → IsPresent current m
    → Returns (Means current m doc) (load_lines (print doc) (current, m))
unfolding load_lines load_line last_value is_section split_at_equals load_entry trim trim_left
    trim_right in_brackets
load_lines-Means [] current m d p = λ n j. refl
load_lines-Means (heading before name after ∷ ls) current m (b, v, a, d) p =
    let (there, same) = open_section-keeps name m in
    rw (is_section-heading before name after b v a) (
      Returns-mono _ _ (load_lines (print ls) (some name, open_section name m))
        (λ r h n j. h n j ∙ ap (λ o. last_value n j (some name) o ls) (same n j))
        (load_lines-Means ls (some name) (open_section name m) d there))
load_lines-Means (entry g key value ∷ ls) none m d p = absurd d
load_lines-Means (entry g key value ∷ ls) (some name) m (a, k, v, d) p =
    let (m', put, there, same) = load_pair-puts key value name m (key-not_skipped key k) p in
    rw (is_section-entry g key value a k, load_entry-entry g key value (some name, m) a k v, put)
      (Returns-mono _ _ (load_lines (print ls) (some name, m'))
        (λ r h n j. h n j ∙ ap (λ o. last_value n j (some name) o ls) (same n j))
        (load_lines-Means ls (some name) m' d there))
load_lines-Means (comment before c t ∷ ls) current m (b, mark, d) p =
    rw (load_line-comment before c t (current, m) b mark) (load_lines-Means ls current m d p)
load_lines-Means (blank ws ∷ ls) current m (b, d) p =
    rw (load_line-blank ws (current, m) b) (load_lines-Means ls current m d p)

-- A file of headings `[name]`, of entries `key=value` below them, comments that start with `#` or `;`
-- and blank lines, with spaces or none before, after and on both sides of the `=`, is loaded, and
-- then each section has under each key the value that the file gives it last, and no other section
-- or key has a value.
pub load-last_value :
    (doc : List Line)
    → IsReadable false doc
    → Returns (λ m. (n j : Text) → value_of n j m ≡ last_value n j none none doc) (load (print doc))
unfolding load value_of
load-last_value doc d =
    through (load_lines (print doc) (none, [])) (load_lines-Means doc none [] d tt)
  where
    through :
        (o : Option Loading)
        → Returns (Means none [] doc) o
        → Returns
            (λ m. (n j : Text) → value_of n j m ≡ last_value n j none none doc)
            (o >>= λ s. some s.1)
    through none h = h
    through (some r) h = h
