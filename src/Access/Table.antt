-- ===== src/Access/Table.antt =====
-- The choice of a tree for a range key: src/access/table_access.cpp, and the checks of db_scan in
-- src/access/scanner.cpp.
pub mod Choice
use sqldb.Base.{
  ℕ, zero, suc, Bool, true, false, ◌&&◌, ◌||◌, not, List, [], ◌∷◌, ◌++◌, Option, none, some, length,
  get_elem?, ltb, Bytes, text, bytes_eq, if◌then◌else◌, Result, ok, stop, failed, asserted, ◌>>=◌,
  ◌>>◌, ensure,
}
use sqldb.Catalog.Value.{Value, ValueType, type_eq}
use sqldb.Catalog.Record.{Record}
use sqldb.Catalog.TableDef.{TableDef, key_cols}
use sqldb.Storage.Cmp.{Cmp, is_forward}
use sqldb.Access.RowCodec.{col_type, encode_key_partial}

-- Does the first list start with the second?
unfoldable pub is_prefix : List Bytes → List Bytes → Bool
is_prefix long_cols [] = true
is_prefix [] (c ∷ short_cols) = false
is_prefix (d ∷ long_cols) (c ∷ short_cols) = bytes_eq c d && is_prefix long_cols short_cols

-- The tree that find_index names: the primary key's, or that of an index.
pub data Tree : Type 0 where
  primary : Tree
  secondary : ℕ → List Bytes → Tree

-- The loop of find_index from position `i` on: the shortest index so far that starts with the keys.
unfoldable pub shortest :
    List (List Bytes) → ℕ → List Bytes → Option (ℕ × List Bytes) → Option (ℕ × List Bytes)
shortest [] i keys winner = winner
shortest (index ∷ indexes) i keys winner = shortest indexes (suc i) keys (
    if is_prefix index keys
    then elim winner [
      | none ↦ some (i, index)
      | some w ↦ if ltb (length index) (length w.1) then some (i, index) else some w
    ]
    else winner)

unfoldable pub find_index : TableDef → List Bytes → Result Tree
find_index d keys =
    if is_prefix (key_cols d) keys then ok primary else elim (shortest d.indexes 0 keys none) [
      | none ↦
          stop (failed (text "no index starts with the range key's columns in table: " ++ d.name))
      | some w ↦ ok (secondary w.0 w.1)
    ]

abbrev pub type_is : Option ValueType → ValueType → Bool
type_is none t = false
type_is (some s) t = type_eq t s

-- The loop of check_bound over the columns of a key and their values.
unfoldable pub check_types : TableDef → List Bytes → List Value → Result (Unit {0})
check_types d [] vals = ok tt
check_types d (c ∷ cols) [] = stop asserted
check_types d (c ∷ cols) (v ∷ vals) = do
  ensure (type_is (col_type d c) v.type) (failed (text "type mismatch for column: " ++ c))
  check_types d cols vals

unfoldable pub check_bound : TableDef → List Bytes → Record → Result (Unit {0})
check_bound d index_cols key = do
  ensure (is_prefix index_cols key.cols)
      (failed (text "range key columns must be a prefix of the scanned index"))
  check_types d key.cols key.vals

-- The columns of a tree, and the prefix of its keys.
abbrev pub tree_cols : TableDef → Tree → List Bytes
tree_cols d primary = key_cols d
tree_cols d (secondary i cols) = cols

abbrev pub tree_prefix : TableDef → Tree → Option ℕ
tree_prefix d primary = some d.prefix
tree_prefix d (secondary i cols) = get_elem? d.index_prefixes i

-- `(cmp1 > 0 && cmp2 < 0) || (cmp1 < 0 && cmp2 > 0)`
abbrev pub opposite : Cmp → Cmp → Bool
opposite cmp1 cmp2 =
    (is_forward cmp1 && not (is_forward cmp2)) || (not (is_forward cmp1) && is_forward cmp2)

-- What db_scan sets in the scanner before it seeks.
pub record ScanPlan : Type 0 where
  pub tree : Tree
  pub key_start : Bytes
  pub key_end : Bytes

abbrev pub or_assert {ℓ} : {A : Type ℓ} → Option A → Result A
or_assert none = stop asserted
or_assert (some a) = ok a

-- db_scan, up to the seek.
unfoldable pub plan_scan : TableDef → Cmp → Cmp → Record → Record → Result ScanPlan
plan_scan d cmp1 cmp2 key1 key2 = do
  ensure (opposite cmp1 cmp2)
      (failed (text "bad range: cmp1 and cmp2 must point in opposite directions"))
  tree ← find_index d key1.cols
  prefix ← or_assert (tree_prefix d tree)
  check_bound d (tree_cols d tree) key1
  check_bound d (tree_cols d tree) key2
  key_end ← encode_key_partial prefix key2.vals d (tree_cols d tree) cmp2
  key_start ← encode_key_partial prefix key1.vals d (tree_cols d tree) cmp1
  ok (record { tree = tree; key_start = key_start; key_end = key_end })
