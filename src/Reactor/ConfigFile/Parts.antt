-- ===== src/Reactor/ConfigFile/Parts.antt =====
-- `GetStringList` of config_file.cpp gives the words that a value lists.
use lars_system.Base.{
  ℕ, zero, suc, ◌≤◌, ◌≡◌, ◌≢◌, refl, sym, ap, ◌∙◌, Bool, true, false, none, some, List, [], ◌∷◌,
  ◌++◌, length, length-append, is_nil, arith,
}
use lars_system.Reactor.ConfigFile.{Text, Config, value_of}
use lars_system.Reactor.ConfigFile.Readers.{
  is_separator, cut_at_separator, skip_separators, after_part, string_list, get_string_list,
  get_string,
}

abbrev pub AllAre : Bool → Text → Type 0
AllAre b [] = Unit {0}
AllAre b (c ∷ cs) = (is_separator c ≡ b) × AllAre b cs

-- A word has no separator, and a gap nothing else; neither is empty.
abbrev pub IsWord : Text → Type 0
IsWord w = (w ≢ []) × AllAre false w

abbrev pub IsGap : Text → Type 0
IsGap g = (g ≢ []) × AllAre true g

-- A word, and more words with the gaps before them.
abbrev pub joined : Text → List (Text × Text) → Text
joined w [] = w
joined w ((g, v) ∷ more) = w ++ (g ++ joined v more)

abbrev pub words : Text → List (Text × Text) → List Text
words w [] = w ∷ []
words w ((g, v) ∷ more) = w ∷ words v more

abbrev pub AllWords : Text → List (Text × Text) → Type 0
AllWords w [] = IsWord w
AllWords w ((g, v) ∷ more) = IsWord w × IsGap g × AllWords v more

cut_at_separator-word : (w : Text) → AllAre false w → cut_at_separator w ≡ (w, none)
unfolding cut_at_separator
cut_at_separator-word [] a = refl
cut_at_separator-word (c ∷ cs) (e, a) = rw (e, cut_at_separator-word cs a) refl

cut_at_separator-gap :
    (w : Text) (c : ℕ) (t : Text)
    → AllAre false w
    → is_separator c ≡ true
    → cut_at_separator (w ++ c ∷ t) ≡ (w, some (c ∷ t))
unfolding cut_at_separator
cut_at_separator-gap [] c t a e = rw e refl
cut_at_separator-gap (b ∷ bs) c t (other, a) e = rw (other, cut_at_separator-gap bs c t a e) refl

skip_separators-gap :
    (g : Text) (c : ℕ) (t : Text)
    → AllAre true g
    → is_separator c ≡ false
    → skip_separators (g ++ c ∷ t) ≡ c ∷ t
unfolding skip_separators
skip_separators-gap [] c t a e = rw e refl
skip_separators-gap (s ∷ ss) c t (sep, a) e = rw sep (skip_separators-gap ss c t a e)

-- A list starts with the first character of its first word.
joined-first :
    (w : Text) (more : List (Text × Text))
    → AllWords w more
    → (c : ℕ) × (t : Text) × (joined w more ≡ c ∷ t) × (is_separator c ≡ false)
joined-first [] [] (some_word, _) = absurd (some_word refl)
joined-first (c ∷ cs) [] (_, (e, _)) = (c, cs, refl, e)
joined-first [] ((g, v) ∷ more) ((some_word, _), _, _) = absurd (some_word refl)
joined-first (c ∷ cs) ((g, v) ∷ more) ((_, (e, _)), _, _) = (c, cs ++ (g ++ joined v more), refl, e)

string_list-joined :
    (fuel : ℕ) (w : Text) (more : List (Text × Text))
    → AllWords w more
    → length (joined w more) ≤ fuel
    → string_list fuel (joined w more) ≡ words w more
unfolding string_list after_part
string_list-joined zero w more a enough =
    let (c, t, e, _) = joined-first w more a in absurd (ground (arith, enough, ap length e))
string_list-joined (suc fuel) w [] (_, plain) enough = rw (cut_at_separator-word w plain) refl
string_list-joined (suc fuel) w (([], v) ∷ more) (_, (some_gap, _), _) enough =
    absurd (some_gap refl)
string_list-joined (suc fuel) w ((s ∷ ss, v) ∷ more) ((_, plain), (_, (sep, seps)), a) enough =
    let (c, t, e, other) = joined-first v more a in
    let skipped : skip_separators (s ∷ (ss ++ joined v more)) ≡ joined v more =
      ap (λ u. skip_separators (s ∷ (ss ++ u))) e
      ∙ skip_separators-gap (s ∷ ss) c t (sep, seps) other
      ∙ sym e in
    let left : is_nil (joined v more) ≡ false = ap is_nil e in
    let shorter : length (joined v more) ≤ fuel = omega (
      arith,
      enough,
      length-append w (s ∷ (ss ++ joined v more)),
      length-append ss (joined v more),
    ) in
    rw (cut_at_separator-gap w s (ss ++ joined v more) plain sep, skipped, left)
      (ap (λ l. w ∷ l) (string_list-joined fuel v more a shorter))

-- A value that lists words, with commas, blanks and tabs between them in any number, is read as
-- these words.
pub get_string_list-words :
    (section_name key w : Text) (more : List (Text × Text)) (m : Config)
    → AllWords w more
    → value_of section_name key m ≡ some (joined w more)
    → get_string_list section_name key m ≡ words w more
unfolding get_string_list get_string
get_string_list-words section_name key w more m a e =
    rw e (string_list-joined (length (joined w more)) w more a (omega arith))

-- A key that is not there lists one empty word.
pub get_string_list-none :
    (section_name key : Text) (m : Config)
    → value_of section_name key m ≡ none
    → get_string_list section_name key m ≡ [] ∷ []
unfolding get_string_list get_string string_list
get_string_list-none section_name key m e = rw e refl
