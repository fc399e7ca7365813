-- ===== src/Reactor/ConfigFile/Readers.antt =====
-- The readers of config_file.cpp: texts, numbers, flags and lists. The parsing and the printing of
-- numbers by streams are arguments.
use lars_system.Base.{
  ℕ, zero, suc, ◌+◌, ◌==◌, leb, ◌&&◌, ◌||◌, Bool, true, if◌then◌else◌, Option, none, some, List, [],
  ◌∷◌, length, is_nil,
}
use lars_system.Reactor.ConfigFile.{Text, Config, same_text, value_of}

unfoldable pub get_string : Text → Text → Text → Config → Text
unfolding value_of
get_string section_name key default m = or_default (value_of section_name key m)
  where
    or_default : Option Text → Text
    or_default none = default
    or_default (some v) = v

-- `parseNumber`, the reading of a number by a stream, is an argument.
unfoldable pub get_number : (Text → ℕ) → Text → Text → ℕ → Config → ℕ
unfolding value_of
get_number parse_number section_name key default m = parsed (value_of section_name key m)
  where
    parsed : Option Text → ℕ
    parsed none = default
    parsed (some v) = parse_number v

-- `strcasecmp` compares letters without their case.
unfoldable pub lower : ℕ → ℕ
lower c = if leb 65 c && leb c 90 then c + 32 else c

unfoldable pub lower_text : Text → Text
unfolding lower
lower_text [] = []
lower_text (c ∷ cs) = lower c ∷ lower_text cs

abbrev pub true_text : Text
true_text = 116 ∷ 114 ∷ 117 ∷ 101 ∷ []

-- `GetBool`: only `true` counts; any other value is the default.
unfoldable pub get_bool : Text → Text → Bool → Config → Bool
unfolding value_of same_text lower_text
get_bool section_name key default m = tested (value_of section_name key m)
  where
    tested : Option Text → Bool
    tested none = default
    tested (some v) = if same_text (lower_text v) true_text then true else default

module _ {ℓ} {F : Type ℓ} where
  abbrev or_else : F → Option F → F
  or_else x none = x
  or_else x (some y) = y

  -- `GetFloat`: the default goes through its text, and a text that is no number is 0.
  unfoldable pub get_float : (Text → Option F) → (F → Text) → F → Text → Text → F → Config → F
  unfolding get_string
  get_float parse_float print_float zero_float section_name key default m =
      or_else zero_float (parse_float (get_string section_name key (print_float default) m))

-- A comma, a blank or a tab.
unfoldable pub is_separator : ℕ → Bool
is_separator c = (c == 44) || ((c == 32) || (c == 9))

-- `find_first_of`: the text before the first separator, and the text from it on, if there is one.
unfoldable pub cut_at_separator : Text → Text × Option Text
unfolding is_separator
cut_at_separator [] = ([], none)
cut_at_separator (c ∷ cs) =
    let rest = cut_at_separator cs in
    if is_separator c then ([], some (c ∷ cs)) else (c ∷ rest.0, rest.1)

-- `find_first_not_of`: the text from the first character on that is no separator.
unfoldable pub skip_separators : Text → Text
unfolding is_separator
skip_separators [] = []
skip_separators (c ∷ cs) = if is_separator c then skip_separators cs else c ∷ cs

-- What follows a part of the list; `more` are the turns that follow.
unfoldable pub after_part : (Text → List Text) → Text × Option Text → List Text
unfolding skip_separators
after_part more (part, none) = part ∷ []
after_part more (part, some rest) =
    let next = skip_separators rest in if is_nil next then part ∷ [] else part ∷ more next

-- The loop of `GetStringList`, on fuel; each turn but the last takes a separator at least.
unfoldable pub string_list : ℕ → Text → List Text
unfolding after_part cut_at_separator
string_list zero str = str ∷ []
string_list (suc fuel) str = after_part (string_list fuel) (cut_at_separator str)

unfoldable pub get_string_list : Text → Text → Config → List Text
unfolding get_string string_list
get_string_list section_name key m =
    let str = get_string section_name key [] m in string_list (length str) str
