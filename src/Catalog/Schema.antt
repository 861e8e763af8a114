-- ===== src/Catalog/Schema.antt =====
-- The schema checks of src/catalog/catalog.cpp: col_index, check_index_keys, table_def_check.
pub mod Normal
pub mod Checked
use sqldb.Base.{
  ℕ, suc, Bool, true, false, not, ◌||◌, ◌&&◌, List, [], ◌∷◌, ◌++◌, Option, none, some, ℤ, pos,
  negsuc, ◌≡◌, Bytes, text, bytes_eq, ltb, leb, ◌==◌, if◌then◌else◌, length, Result, ok, stop,
  failed, ◌>>=◌, ◌>>◌, ensure,
}
use sqldb.Catalog.TableDef.{TableDef, key_count, key_cols}

-- The loop of col_index, from position `i` on; none is the source's -1.
unfoldable pub position : List Bytes → Bytes → ℕ → Option ℕ
position [] col i = none
position (c ∷ cols) col i =
    let later = position cols col (suc i) in if bytes_eq c col then some i else later

unfoldable pub col_index : TableDef → Bytes → Option ℕ
col_index d col = position d.cols col 0

unfoldable pub contains : List Bytes → Bytes → Bool
contains [] col = false
contains (c ∷ cols) col = bytes_eq c col || contains cols col

-- `col_index(tdef, col) >= 0`
unfoldable pub has_col : TableDef → Bytes → Bool
has_col d col = elim (col_index d col) [ none ↦ false | some i ↦ true ]

-- The first loop of check_index_keys: the columns of the index, after those taken already.
unfoldable pub take_cols : TableDef → List Bytes → List Bytes → Result (List Bytes)
take_cols d [] out = ok out
take_cols d (col ∷ index) out =
    let next = take_cols d index (out ++ col ∷ []) in
    if not (has_col d col)
    then stop (failed (text "unknown index column: " ++ col))
    else if contains out col
    then stop (failed (text "duplicate index column: " ++ col))
    else next

-- The second loop: the primary key columns that are missing.
unfoldable pub add_keys : List Bytes → List Bytes → List Bytes
add_keys [] out = out
add_keys (key ∷ keys) out = add_keys keys (if contains out key then out else out ++ key ∷ [])

-- `!index.empty()`, `!name.empty()`
abbrev pub is_nonempty {ℓ} : {A : Type ℓ} → List A → Bool
is_nonempty [] = false
is_nonempty (x ∷ xs) = true

unfoldable pub check_index_keys : TableDef → List Bytes → Result (List Bytes)
check_index_keys d index = do
  ensure (is_nonempty index) (failed (text "index must have at least one column"))
  taken ← take_cols d index []
  let out = add_keys (key_cols d) taken
  ensure (ltb (length out) (length d.cols))
      (failed (text "index plus primary key must not cover every column"))
  ok out

-- The loop of table_def_check over the indexes.
unfoldable pub check_indexes : TableDef → List (List Bytes) → Result (List (List Bytes))
check_indexes d [] = ok []
check_indexes d (index ∷ indexes) = do
  normalized ← check_index_keys d index
  rest ← check_indexes d indexes
  ok (normalized ∷ rest)

-- `pkeys > 0 && pkeys <= cols.size()`
abbrev pub keys_in_range : TableDef → Bool
keys_in_range d = elim d.pkeys [ pos n ↦ ltb 0 n && leb n (length d.cols) | negsuc n ↦ false ]

unfoldable pub table_def_check : TableDef → Result TableDef
table_def_check d = do
  ensure (is_nonempty d.name) (failed (text "table name must not be empty"))
  ensure (length d.cols == length d.types) (failed (text "cols and types must have the same size"))
  ensure (keys_in_range d) (failed (text "pkeys must be in (0, cols.size()]"))
  indexes ← check_indexes d d.indexes
  ok (record d { indexes = indexes })
