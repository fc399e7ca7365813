-- ===== src/Reporter/Store/Statements.antt =====
-- Every statement of store_report.cpp fits in its buffer, and its numbers read back.
use mathlib.Core.List.{append_assoc, append-nil}
use lars_system.Base.{
  ℕ, zero, suc, ◌+◌, ◌-◌, ◌*◌, ◌/◌, ◌%◌, ◌^◌, ◌≤◌, ◌<◌, ◌≡◌, refl, sym, ap, ◌∙◌, ltb, List, [], ◌∷◌,
  ◌++◌, take_all, length, length-append, arith, Bool-cases, inl, inr,
}
use lars_system.Agent.Messages.{HostCallResult, ReportStatusRequest}
use lars_system.Reporter.Store.{
  digits, Item, text, signed, unsigned, print_item, print_items, snprintf, insert_statement,
  store_results, store,
}

length-digits : (fuel n : ℕ) → length (digits fuel n) ≤ fuel
unfolding digits
length-digits zero n = omega arith
length-digits (suc fuel) n = elim (Bool-cases (ltb n 10)) [
  | inl one ↦ rw one (omega arith)
  | inr more ↦ rw more (
      omega (
        arith,
        length-digits fuel (n / 10),
        length-append (digits fuel (n / 10)) ((48 + n % 10) ∷ []),
      ))
]

-- The most characters that an item can take.
abbrev width : Item → ℕ
width (text cs) = length cs
width (signed n) = 11
width (unsigned n) = 10

abbrev widths : List Item → ℕ
widths [] = 0
widths (i ∷ is) = width i + widths is

length-print_item : (i : Item) → length (print_item i) ≤ width i
unfolding print_item
length-print_item (text cs) = omega arith
length-print_item (signed n) = ground (arith, length-digits 10 n, length-digits 10 (2 ^ 32 - n))
length-print_item (unsigned n) = length-digits 10 n

length-print_items : (is : List Item) → length (print_items is) ≤ widths is
unfolding print_items
length-print_items [] = omega arith
length-print_items (i ∷ is) = omega (
  arith,
  length-append (print_item i) (print_items is),
  length-print_item i,
  length-print_items is,
)

widths-insert_statement :
    (req : ReportStatusRequest) (r : HostCallResult) → widths (insert_statement req r) ≤ 1023
unfolding insert_statement
widths-insert_statement req r = omega arith

-- The buffer of 1024 characters holds every statement, whatever the report says: none is cut.
snprintf-insert_statement :
    (req : ReportStatusRequest) (r : HostCallResult)
    → snprintf 1024 (insert_statement req r) ≡ print_items (insert_statement req r)
unfolding snprintf
snprintf-insert_statement req r =
    take_all 1023 (print_items (insert_statement req r))
      (omega (arith, length-print_items (insert_statement req r), widths-insert_statement req r))

-- The whole statements of a report.
abbrev pub statements : ReportStatusRequest → List HostCallResult → List (List ℕ)
statements req [] = []
statements req (r ∷ rs) = print_items (insert_statement req r) ∷ statements req rs

store_results-statements :
    (req : ReportStatusRequest) (rs : List HostCallResult) (db : List (List ℕ))
    → store_results req rs db ≡ db ++ statements req rs
unfolding store_results
store_results-statements req [] db = sym (append-nil db)
store_results-statements req (r ∷ rs) db =
    ap (λ s. store_results req rs (db ++ s ∷ [])) (snprintf-insert_statement req r)
    ∙ store_results-statements req rs (db ++ print_items (insert_statement req r) ∷ [])
    ∙ append_assoc db (print_items (insert_statement req r) ∷ []) (statements req rs)

-- A report is stored by one statement for each of its results, in order, none of which is cut at the
-- end of the buffer of 1024 characters.
pub store-statements :
    (req : ReportStatusRequest) (db : List (List ℕ))
    → store req db ≡ db ++ statements req req.results
unfolding store
store-statements req db = store_results-statements req req.results db

-- The number that a text of digits is.
unfoldable pub number : ℕ → List ℕ → ℕ
number acc [] = acc
number acc (c ∷ cs) = number (acc * 10 + (c - 48)) cs

number-append : (acc : ℕ) (xs ys : List ℕ) → number acc (xs ++ ys) ≡ number (number acc xs) ys
unfolding number
number-append acc [] ys = refl
number-append acc (x ∷ xs) ys = number-append (acc * 10 + (x - 48)) xs ys

digits_room : (fuel n : ℕ) → n < 10 ^ suc fuel → n / 10 < 10 ^ fuel
digits_room fuel n h = omega arith

-- As many digits as there are at most print a number in full: it reads back.
number-digits : (fuel n : ℕ) → n < 10 ^ fuel → number 0 (digits fuel n) ≡ n
unfolding digits number
number-digits zero n h = omega arith
number-digits (suc fuel) n h = elim (Bool-cases (ltb n 10)) [
  | inl one ↦ rw one (omega arith)
  | inr more ↦
      rw
        (
          more,
          number-append 0 (digits fuel (n / 10)) ((48 + n % 10) ∷ []),
          number-digits fuel (n / 10) (digits_room fuel n h),
        )
        (omega arith)
]
