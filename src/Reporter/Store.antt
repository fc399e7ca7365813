-- ===== src/Reporter/Store.antt =====
-- store_report.h and store_report.cpp: the statement that a report becomes, character by character.
-- The connection to MySQL is the list of the statements that were sent to it; a statement that fails
-- is only noted on the terminal. The connection is set up by the constructor, which is not modelled.
pub mod Statements
use lars_system.Base.{
  ℕ, zero, suc, ◌+◌, ◌-◌, ◌/◌, ◌%◌, ◌^◌, ltb, Bool, true, false, if◌then◌else◌, List, [], ◌∷◌, ◌++◌,
  take, length, codes,
}
use lars_system.Agent.Messages.{HostCallResult, ReportStatusRequest}

-- The decimal digits of a number; as many digits as there are at most suffice as fuel.
unfoldable pub digits : ℕ → ℕ → List ℕ
digits zero n = []
digits (suc fuel) n = if ltb n 10 then (48 + n) ∷ [] else digits fuel (n / 10) ++ (48 + n % 10) ∷ []

-- The items of a format: text, `%d` and `%u`, with the 32-bit pattern that is printed.
pub data Item : Type 0 where
  text : List ℕ → Item
  signed : ℕ → Item
  unsigned : ℕ → Item

unfoldable pub print_item : Item → List ℕ
unfolding digits
print_item (text cs) = cs
print_item (signed n) = if ltb n (2 ^ 31) then digits 10 n else 45 ∷ digits 10 (2 ^ 32 - n)
print_item (unsigned n) = digits 10 n

unfoldable pub print_items : List Item → List ℕ
unfolding print_item
print_items [] = []
print_items (i ∷ is) = print_item i ++ print_items is

-- `snprintf` keeps a place for the final zero.
unfoldable pub snprintf : ℕ → List Item → List ℕ
unfolding print_items
snprintf size is = take (size - 1) (print_items is)

unfoldable pub insert_statement : ReportStatusRequest → HostCallResult → List Item
insert_statement req result =
    let overload = signed (if result.overload then 1 else 0) in
    text (codes "INSERT INTO ServerCallStatus")
    ∷ text (codes "(modid, cmdid, ip, port, caller, succ_cnt, err_cnt, ts, overload) ")
    ∷ text (codes "VALUES (")
    ∷ signed req.modid
    ∷ text (codes ", ")
    ∷ signed req.cmdid
    ∷ text (codes ", ")
    ∷ unsigned result.ip
    ∷ text (codes ", ")
    ∷ unsigned result.port
    ∷ text (codes ", ")
    ∷ unsigned req.caller
    ∷ text (codes ", ")
    ∷ unsigned result.succ
    ∷ text (codes ", ")
    ∷ unsigned result.err
    ∷ text (codes ", ")
    ∷ unsigned req.ts
    ∷ text (codes ", ")
    ∷ overload
    ∷ text (codes ") ON DUPLICATE KEY ")
    ∷ text (codes "UPDATE succ_cnt = ")
    ∷ unsigned result.succ
    ∷ text (codes ", err_cnt = ")
    ∷ unsigned result.err
    ∷ text (codes ", ts = ")
    ∷ unsigned req.ts
    ∷ text (codes ", overload = ")
    ∷ overload
    ∷ []

-- `store`: a statement for each result, in order, is put at the end of what the database got.
unfoldable pub store_results :
    ReportStatusRequest → List HostCallResult → List (List ℕ) → List (List ℕ)
unfolding snprintf insert_statement
store_results req [] db = db
store_results req (r ∷ rs) db =
    store_results req rs (db ++ snprintf 1024 (insert_statement req r) ∷ [])

unfoldable pub store : ReportStatusRequest → List (List ℕ) → List (List ℕ)
unfolding store_results
store req db = store_results req req.results db
