-- ===== src/Reactor/ConfigFile.antt =====
-- config_file.h and config_file.cpp: the sections of a configuration file, and `Load`; the readers are
-- in Readers. A text is the list of its characters' codes, and a file the lines that `getline` gives.
pub mod Readers
pub mod Trims
pub mod Sections
pub mod Lines
pub mod Documents
pub mod Parts
use lars_system.Base.{
  ℕ, zero, suc, ◌+◌, ◌-◌, ◌≡◌, ◌==◌, leb, ltb, ◌&&◌, ◌||◌, not, Bool, true, false, if◌then◌else◌,
  Option, none, some, List, [], ◌∷◌, ◌++◌, length, is_nil, ◌>>=◌,
}

abbrev pub Text : Type 0
Text = List ℕ

unfoldable pub same_text : Text → Text → Bool
same_text [] [] = true
same_text [] (d ∷ ds) = false
same_text (c ∷ cs) [] = false
same_text (c ∷ cs) (d ∷ ds) = (c == d) && same_text cs ds

-- `isspace` in the C locale: a blank, or one of the codes 9 to 13.
unfoldable pub is_space : ℕ → Bool
is_space c = (c == 32) || (leb 9 c && leb c 13)

-- `trimLeft`.
unfoldable pub trim_left : Text → Text
unfolding is_space
trim_left [] = []
trim_left (c ∷ cs) = if is_space c then trim_left cs else c ∷ cs

-- A character before what is left of the text after it.
unfoldable pub keep : ℕ → Text → Text
unfolding is_space
keep c [] = if is_space c then [] else c ∷ []
keep c (d ∷ ds) = c ∷ d ∷ ds

-- `trimRight`: the characters up to the last that is no space.
unfoldable pub trim_right : Text → Text
unfolding keep
trim_right [] = []
trim_right (c ∷ cs) = keep c (trim_right cs)

unfoldable pub trim : Text → Text
unfolding trim_left trim_right
trim cs = trim_left (trim_right cs)

unfoldable pub last_or : ℕ → Text → ℕ
last_or c [] = c
last_or c (d ∷ ds) = last_or d ds

unfoldable pub but_last : Text → Text
but_last [] = []
but_last (c ∷ []) = []
but_last (c ∷ d ∷ ds) = c ∷ but_last (d ∷ ds)

-- The text between the brackets; the length test leaves three characters at least.
unfoldable pub in_brackets : Text → Option Text
unfolding trim last_or but_last
in_brackets [] = none
in_brackets (c ∷ cs) =
    if leb (length (c ∷ cs)) 2
    then none
    else if (c == 91) && (last_or c cs == 93)
    then some (trim (but_last cs))
    else none

-- `isSection`: the name, if the line is the head of a section.
unfoldable pub is_section : Text → Option Text
unfolding in_brackets trim
is_section line = in_brackets (trim line)

-- The parts of a line before and after its first `=`.
unfoldable pub split_at_equals : Text → Option (Text × Text)
split_at_equals [] = none
split_at_equals (c ∷ cs) = if c == 61 then some ([], cs) else after (split_at_equals cs)
  where
    after : Option (Text × Text) → Option (Text × Text)
    after none = none
    after (some (key, value)) = some (c ∷ key, value)

module _ {ℓ} {V : Type ℓ} where
  -- A `std::map` with texts for keys.
  unfoldable pub find : Text → List (Text × V) → Option V
  unfolding same_text
  find k [] = none
  find k ((j, v) ∷ m) = if same_text j k then some v else find k m

  unfoldable pub assign : Text → V → List (Text × V) → List (Text × V)
  unfolding same_text
  assign k v [] = (k, v) ∷ []
  assign k v ((j, w) ∷ m) = if same_text j k then (j, v) ∷ m else (j, w) ∷ assign k v m

abbrev pub Section : Type 0
Section = List (Text × Text)

abbrev pub Config : Type 0
Config = List (Text × Section)

-- The head of a section: an empty one, if it is new.
unfoldable pub open_section : Text → Config → Config
unfolding find assign
open_section name m = open_found name (find name m) m
  where
    open_found : Text → Option Section → Config → Config
    open_found name none m = assign name [] m
    open_found name (some s) m = m

-- A key is put into the present section. `none`: there is none yet, and a null pointer is used.
unfoldable pub put_key : Text → Text → Option Text → Config → Option Config
unfolding find assign
put_key key value none m = none
put_key key value (some name) m = put_found (find name m)
  where
    put_found : Option Section → Option Config
    put_found none = none
    put_found (some s) = some (assign name (assign key value s) m)

-- An empty key, and a comment, which starts with `#` or `;`.
unfoldable pub is_skipped : Text → Bool
is_skipped [] = true
is_skipped (c ∷ cs) = (c == 35) || (c == 59)

-- The state of `Load`: the name of the section that `m` points to, and the map.
abbrev pub Loading : Type 0
Loading = Option Text × Config

unfoldable pub load_pair : Text → Text → Loading → Option Loading
unfolding is_skipped put_key
load_pair key value (current, m) =
    if is_skipped key
    then some (current, m)
    else put_key key value current m >>= λ m'. some (current, m')

unfoldable pub load_entry : Option (Text × Text) → Loading → Option Loading
unfolding load_pair trim
load_entry none s = some s
load_entry (some (key, value)) s = load_pair (trim key) (trim value) s

-- One line.
unfoldable pub load_line : Text → Option Text → Loading → Option Loading
unfolding open_section load_entry split_at_equals
load_line line (some name) (current, m) = some (some name, open_section name m)
load_line line none s = load_entry (split_at_equals line) s

unfoldable pub load_lines : List Text → Loading → Option Loading
unfolding load_line is_section
load_lines [] s = some s
load_lines (line ∷ lines) s = load_line line (is_section line) s >>= load_lines lines

-- `Load` of a file that can be read.
unfoldable pub load : List Text → Option Config
unfolding load_lines
load lines = load_lines lines (none, []) >>= λ s. some s.1

-- The value under a section and a key.
unfoldable pub value_of : Text → Text → Config → Option Text
unfolding find
value_of section_name key m = find section_name m >>= λ s. find key s
