-- ===== src/Ql/Exec/Assign.antt =====
-- What SET does to a row.
use sqldb.Base.{
  ◌≡◌, sym, ap, ◌∙◌, List, [], ◌∷◌, Option, none, some, Bytes, bytes_eq, bytes_eq_iff,
  if◌then◌else◌, ok, ok-injective, arith,
}
use sqldb.Catalog.Value.{Value}
use sqldb.Catalog.Record
use sqldb.Catalog.Record.{Record, find_value}
use sqldb.Ql.Exec.{set_col, assign}

-- What a column holds behind the assignments, beside what it held: the value of the last one of its name,
-- where the row has the column at all.
abbrev pub replaced : Option Value → Value → Option Value
replaced none v = none
replaced (some old) v = some v

unfoldable pub assigned : List Bytes → List Value → Bytes → Option Value → Option Value
assigned [] vals name found = found
assigned (n ∷ names) [] name found = found
assigned (n ∷ names) (v ∷ vals) name found =
    assigned names vals name (if bytes_eq n name then replaced found v else found)

find_value-set_col :
    (cols : List Bytes) (vals : List Value) (n name : Bytes) (v : Value)
    → find_value cols (set_col cols vals n v) name ≡ (
        if bytes_eq n name
        then replaced (find_value cols vals name) v
        else find_value cols vals name)
unfolding find_value set_col
find_value-set_col [] vals n name v = ground arith
find_value-set_col (c ∷ cols) [] n name v = ground arith
find_value-set_col (c ∷ cols) (old ∷ vals) n name v = ground (
  arith,
  find_value-set_col cols vals n name v,
  bytes_eq_iff c n,
  bytes_eq_iff c name,
  bytes_eq_iff n name,
)

-- The assignments keep the columns of the row, and each column holds the value of the last assignment to
-- its name, or what it held.
pub assign-assigned :
    (names : List Bytes) (vals : List Value) (row out : Record) (name : Bytes)
    → assign names vals row ≡ ok out
    → (out.cols ≡ row.cols) × (Record.get out name ≡ assigned names vals name (Record.get row name))
unfolding assign assigned Record.get
assign-assigned [] vals row out name done =
    let same = ok-injective done in
    (ap (λ r. r.cols) (sym same), ap (λ r. Record.get r name) (sym same))
assign-assigned (n ∷ names) [] row out name done = cc
assign-assigned (n ∷ names) (v ∷ vals) row out name done =
    let (cols, found) =
      assign-assigned names vals (record row { vals = set_col row.cols row.vals n v }) out name
        done in
    (cols, found ∙ ap (assigned names vals name) (find_value-set_col row.cols row.vals n name v))
