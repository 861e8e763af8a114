-- ===== src/Access/Scan/Tests.antt =====
-- Rows of a table with an index, in a tree of one page.
use sqldb.Base.{
  ◌>>=◌, false, ◌≡◌, refl, subst, [], ◌∷◌, List, pos, Bytes, bytes_eq, text, lex, ok, stop,
  asserted, absent, none, some, ◌⊎◌, arith, All,
}
use sqldb.Catalog.Value.{int_64, bytes, make_int64, make_bytes, number, string, IsStored, blank}
use sqldb.Catalog.Record
use sqldb.Catalog.Record.{Record}
use sqldb.Catalog.TableDef.{TableDef}
use sqldb.Catalog.Schema.{contains, col_index, position}
use sqldb.Encoding
use sqldb.Encoding.{encode_values}
use sqldb.Access.RowCodec.{
  encode_key, encode_key_partial, pad_cols, decode_row, check_record, pick_values, only_cols,
  col_type, u32_be, typed_slots, decode_key,
}
use sqldb.Access.Rows.{index_key, index_values, db_update, db_delete}
use sqldb.Access.Rows.Indexed.{index_keys, put_keys, erase_keys, Blocked, Fresh}
use sqldb.Access.Rows.Effect.{IsRow, OldRow, db_update-put, db_update-replace, db_delete-erase}
use sqldb.Catalog.Store.{Kv, get_table_def, find_cached}
use sqldb.Db
use sqldb.Db.{Dbtx}
use sqldb.Db.Written.{get-insert_row}
use sqldb.Access.Scan.{db_get, db_scan}
use sqldb.Access.Scan.Between.{scanned, db_scan-between}
use sqldb.Access.Table.{
  ScanPlan, primary, plan_scan, find_index, is_prefix, check_bound, check_types,
}
use sqldb.Storage.Cmp.{cmp_ge, cmp_le}
use sqldb.Storage.Visits.{matching, in_direction}
use sqldb.Access.Scan.Found.{db_get-db_update}
use sqldb.Storage.SortedMap.{Pairs, find, put, erase}
use sqldb.Storage.Node.{Entry, BNode, offset, bnode_leaf}
use sqldb.Storage.Node.Build.{IsComplete}
use sqldb.Storage.PageManager.Growing.{Store, store_pages}
use sqldb.Storage.Tree.{check_limit, check_key_limit}
use sqldb.Storage.Tree.Get.{tree, empty_tree}
use sqldb.Storage.Kv.Tx.{insert_only, upsert}
use sqldb.Storage.Kv.Api.{Api}
use sqldb.Storage.Kv.Api.Trees.{TreeState, trees, Stands}

abbrev notes : TableDef
notes = record {
  name = text "notes";
  types = int_64 ∷ bytes ∷ int_64 ∷ [];
  cols = text "a" ∷ text "b" ∷ text "c" ∷ [];
  pkeys = pos 1;
  indexes = (text "b" ∷ text "a" ∷ []) ∷ [];
  prefix = 3;
  index_prefixes = 4 ∷ [];
}

abbrev row : Record
row = record {
  cols = notes.cols;
  vals = make_int64 (pos 1) ∷ make_bytes (text "hi") ∷ make_int64 (pos 7) ∷ [];
}

abbrev key : Bytes
key = 0 ∷ 0 ∷ 0 ∷ 3 ∷ 128 ∷ 0 ∷ 0 ∷ 0 ∷ 0 ∷ 0 ∷ 0 ∷ 1 ∷ []

abbrev val : Bytes
val = 104 ∷ 105 ∷ 0 ∷ 128 ∷ 0 ∷ 0 ∷ 0 ∷ 0 ∷ 0 ∷ 0 ∷ 7 ∷ []

abbrev in_index : Bytes
in_index = 0 ∷ 0 ∷ 0 ∷ 4 ∷ 104 ∷ 105 ∷ 0 ∷ 128 ∷ 0 ∷ 0 ∷ 0 ∷ 0 ∷ 0 ∷ 0 ∷ 1 ∷ []

row-IsRow : IsRow notes row row.vals key val (in_index ∷ [])
unfolding check_record pick_values only_cols contains bytes_eq Record.get Record.find_value
    make_int64 make_bytes encode_key encode_values u32_be Encoding.encode_value
    Encoding.encode_int64 Encoding.bias Encoding.push_shifted Encoding.encode_bytes
    Encoding.escape_string Encoding.escape_chars Encoding.starts_high check_limit check_key_limit
    index_keys index_key index_values
row-IsRow = record {
  checked = refl;
  key_made = refl;
  val_made = refl;
  limit = refl;
  parallel = refl;
  keys_made = refl;
  short = (refl, tt);
}

-- No rows yet: a tree without a root.
abbrev no_pages : Store
no_pages = record { last = 0; page = λ p. stop asserted }

abbrev nothing : TreeState Store
nothing = record { fuel = 1; root = 0; store = no_pages }

abbrev api : Api (TreeState Store)
api = trees store_pages

nothing-Stands : Stands store_pages nothing []
nothing-Stands = (0, [], omega arith, empty_tree 0 no_pages, refl)

db_update-put_example :
    (t : TreeState Store) × (db_update api notes row insert_only nothing ≡ ok t)
    × Stands store_pages t (put_keys (in_index ∷ []) (put key val []))
unfolding find put lex
db_update-put_example =
    db_update-put api notes row row.vals key val (in_index ∷ []) insert_only nothing [] row-IsRow
      nothing-Stands refl refl (refl, tt)

-- The primary key of the row.
abbrev at_one : Record
at_one = record { cols = text "a" ∷ []; vals = make_int64 (pos 1) ∷ [] }

row-IsStored : All IsStored row.vals
row-IsStored = (
  number (pos 1) (omega arith),
  (string (text "hi") (omega arith), (number (pos 7) (omega arith), tt)),
)

db_get-db_update_example :
    (t : TreeState Store) × (db_update api notes row insert_only nothing ≡ ok t)
    × (db_get api notes at_one t ≡ ok row)
unfolding find put lex check_record pick_values only_cols contains bytes_eq Record.get
    Record.find_value make_int64 col_type col_index position
db_get-db_update_example =
    db_get-db_update api notes row at_one row.vals key val (in_index ∷ []) insert_only nothing []
      refl refl (omega arith) row-IsRow row-IsStored refl nothing-Stands refl refl (refl, tt)

-- The row with its index key, in a leaf behind the empty key.
abbrev entry : Bytes → Bytes → Entry
entry key val = record { ptr = 0; key = key; val = val }

abbrev leaf : BNode
leaf = record {
  btype = bnode_leaf;
  nkeys = 3;
  entries = entry [] [] ∷ entry key val ∷ entry in_index [] ∷ [];
}

abbrev stored : Pairs
stored = (key, val) ∷ (in_index, []) ∷ []

abbrev one_row : TreeState Store
one_row = record { fuel = 1; root = 1; store = record { last = 1; page = λ p. ok leaf } }

leaf-IsComplete : IsComplete leaf
leaf-IsComplete = record {
  counted = refl;
  fitting =
      ((omega arith, omega arith), ((omega arith, omega arith), ((omega arith, omega arith), tt)));
}

one_row-Stands : Stands store_pages one_row stored
unfolding lex offset
one_row-Stands = (
  0,
  ([], []) ∷ stored,
  omega arith,
  tree 0 1 one_row.store leaf [] stored (omega arith) (omega arith, omega arith) refl
      leaf-IsComplete (omega arith) ((refl, (refl, tt)), ((refl, tt), (tt, tt))) (refl, refl),
  refl,
)

-- From the row's key to itself.
abbrev at_row : ScanPlan
at_row = record { tree = primary; key_start = key; key_end = key }

test_at_row : plan_scan notes cmp_ge cmp_le at_one at_one ≡ ok at_row
unfolding plan_scan find_index is_prefix bytes_eq check_bound check_types col_type col_index
    position make_int64 encode_key_partial encode_key encode_values Encoding.encode_value pad_cols
    u32_be Encoding.encode_int64 Encoding.bias Encoding.push_shifted
test_at_row = refl

db_scan-between_example :
    (db_scan api notes cmp_ge cmp_le at_one at_one one_row >>= λ sc. scanned api 4 one_row sc)
    ≡ ok (in_direction cmp_ge (matching cmp_le key (matching cmp_ge key stored)))
db_scan-between_example =
    db_scan-between api notes cmp_ge cmp_le at_one at_one at_row one_row stored 4 test_at_row
      one_row-Stands (omega arith)

row-OldRow : OldRow api notes key val row (in_index ∷ [])
unfolding decode_row decode_key typed_slots Encoding.decode_values Encoding.decode_slots
    Encoding.decode_value Encoding.decode_int64 Encoding.decode_bytes Encoding.has_bytes
    Encoding.read_shifted Encoding.unbias Encoding.split_zero Encoding.unescape_string
    Encoding.unescape_chars Encoding.has_prefix blank make_int64 make_bytes index_keys index_key
    index_values Record.get Record.find_value bytes_eq encode_key encode_values u32_be
    Encoding.encode_value Encoding.encode_int64 Encoding.bias Encoding.push_shifted
    Encoding.encode_bytes Encoding.escape_string Encoding.escape_chars Encoding.starts_high
    check_limit check_key_limit
row-OldRow = (refl, refl, (refl, tt))

db_update-replace_example :
    ((Blocked api (in_index ∷ []) (put key val stored)
        ⊎ ¬ (Fresh (in_index ∷ []) (erase_keys (in_index ∷ []) (put key val stored))))
      × (db_update api notes row upsert one_row ≡ stop asserted))
    ⊎ ((t : TreeState Store) × (db_update api notes row upsert one_row ≡ ok t)
        × Stands store_pages t
            (put_keys (in_index ∷ []) (erase_keys (in_index ∷ []) (put key val stored))))
unfolding find lex
db_update-replace_example =
    db_update-replace api notes row row row.vals key val val (in_index ∷ []) (in_index ∷ []) upsert
      one_row stored row-IsRow row-OldRow one_row-Stands refl tt

db_delete-erase_example :
    ((find key stored ≡ none) × (db_delete api notes at_one one_row ≡ stop absent))
    ⊎ ((old : Bytes) × (old_rec : Record) × (old_keys : List Bytes) × (find key stored ≡ some old)
        × OldRow api notes key old old_rec old_keys
        × ((((api.Crowded one_row × (api.del key one_row ≡ stop asserted))
                ⊎ Blocked api old_keys (erase key stored))
              × (db_delete api notes at_one one_row ≡ stop asserted))
            ⊎ ((t : TreeState Store) × (db_delete api notes at_one one_row ≡ ok t)
                × Stands store_pages t (erase_keys old_keys (erase key stored)))))
unfolding find lex check_record pick_values only_cols contains bytes_eq Record.get Record.find_value
    make_int64 encode_key encode_values u32_be Encoding.encode_value Encoding.encode_int64
    Encoding.bias Encoding.push_shifted check_key_limit
db_delete-erase_example =
    db_delete-erase api notes at_one at_one.vals key one_row stored refl refl refl refl
      one_row-Stands
      (λ old there.
        let same : val ≡ old = cc in
        (
          row,
          in_index ∷ [],
          subst (λ v. OldRow api notes key v row (in_index ∷ [])) same row-OldRow,
        ))

-- The table stands in the cache, over a catalog that nothing is stored in or added to.
never_set : (t : TreeState Store) (v : Bytes) → stop asserted ≡ ok t → none ≡ some v
never_set t v e = cc

abbrev catalog : Kv (TreeState Store)
catalog = record {
  get = λ s k. none;
  set = λ s k v. stop asserted;
  get-set_same = λ s t k v e. never_set t v e;
  get-set_other = λ s t k v j e differ. refl;
}

abbrev cached : Dbtx (TreeState Store)
cached = record { kv_tx = nothing; cache = (text "notes", notes) ∷ []; created_table = false }

get-insert_row_example :
    (u : Dbtx (TreeState Store)) × (Db.insert catalog api (text "notes") row cached ≡ ok u)
    × (Db.get catalog api (text "notes") at_one u ≡ ok (row, u))
unfolding find put lex check_record pick_values only_cols contains bytes_eq Record.get
    Record.find_value make_int64 col_type col_index position Db.find_table get_table_def find_cached
get-insert_row_example =
    get-insert_row catalog api cached cached (text "notes") notes row at_one row.vals key val
      (in_index ∷ []) [] refl refl refl (omega arith) row-IsRow row-IsStored refl nothing-Stands
      refl (refl, tt)
