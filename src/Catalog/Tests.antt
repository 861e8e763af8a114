-- ===== src/Catalog/Tests.antt =====
-- A table with two indexes, through its builder, its checks and its text form.
use sqldb.Base.{
  ℕ, Option, none, sym, ap, ◌∙◌, ok-injective, bytes_eq_refl, false, if◌then◌else◌, ◌≡◌, refl, [],
  ◌∷◌, ◌++◌, List, pos, Bytes, true, bytes_eq, text, ok, some, arith,
}
use sqldb.Catalog.Value.{int_64, bytes}
use sqldb.Catalog.TableDef.{
  TableDef, table_def_builder, add_col, set_pkeys, set_prefix, tdef_meta, tdef_table,
}
use sqldb.Catalog.Schema.{
  check_index_keys, table_def_check, contains, has_col, col_index, position, is_nonempty,
  check_indexes, take_cols, add_keys,
}
use sqldb.Catalog.Schema.Normal.{IsNormal, check_index_keys-IsNormal}
use sqldb.Catalog.Schema.Checked.{IsChecked, table_def_check-IsChecked}
use sqldb.Access.RowCodec.{u32_be}
use sqldb.Db
use sqldb.Db.{Dbtx, begin, commit, abort}
use sqldb.Db.Cached.{Run, started, created, Coherent, Coherent-left_cache}
use sqldb.Catalog.Store.{
  find_cached, Kv, internal_key, internal_get, internal_set, read_u32, alloc_prefix, table_new,
  get_table_def_from_kv, with_prefixes, prefixes_from,
}
use sqldb.Catalog.Store.Law.{get_table_def_from_kv-table_new}
use sqldb.Catalog.TextForm.{encode_table_def, decode_table_def}
use sqldb.Catalog.TextForm.RoundTrip.{
  IsPrintable, IsWord, NoSpace, decode_table_def-encode_table_def,
}

abbrev people : TableDef
people = record {
  name = text "people";
  types = int_64 ∷ bytes ∷ int_64 ∷ [];
  cols = text "id" ∷ text "name" ∷ text "age" ∷ [];
  pkeys = pos 1;
  indexes = (text "age" ∷ []) ∷ [];
  prefix = 100;
  index_prefixes = 101 ∷ [];
}

abbrev checked : TableDef
checked = record people { indexes = (text "age" ∷ text "id" ∷ []) ∷ [] }

test_check : table_def_check people ≡ ok checked
unfolding table_def_check check_indexes check_index_keys take_cols add_keys contains has_col
    col_index position bytes_eq
test_check = refl

word : (s : Bytes) → is_nonempty s ≡ true → NoSpace s → IsWord s
word [] h k = cc
word (c ∷ s) h k = record { some_char = λ e. cc; no_space = k }

people-IsPrintable : IsPrintable people
people-IsPrintable = record {
  name = omega arith;
  cols = (
    word (text "id") refl (refl, (refl, tt)),
    (
      word (text "name") refl (refl, (refl, (refl, (refl, tt)))),
      (word (text "age") refl (refl, (refl, (refl, tt))), tt),
    ),
  );
  some_col = λ e. cc;
  parallel = refl;
  indexes = ((omega arith, (word (text "age") refl (refl, (refl, (refl, tt))), tt)), tt);
  pkeys = omega arith;
  prefix = omega arith;
  index_prefixes = omega arith;
  sizes = omega arith;
}

checked-IsChecked : IsChecked checked
checked-IsChecked = (table_def_check-IsChecked people checked test_check).0

test_index : check_index_keys people (text "age" ∷ []) ≡ ok (text "age" ∷ text "id" ∷ [])
unfolding check_index_keys take_cols add_keys contains has_col col_index position bytes_eq
test_index = refl

check_index_keys-IsNormal_example :
    IsNormal people (text "age" ∷ text "id" ∷ [])
    × ((extra : List Bytes) × (text "age" ∷ text "id" ∷ [] ≡ (text "age" ∷ []) ++ extra))
check_index_keys-IsNormal_example =
    check_index_keys-IsNormal people (text "age" ∷ []) (text "age" ∷ text "id" ∷ []) test_index

decode_table_def-encode_table_def_example : decode_table_def (encode_table_def people) ≡ some people
decode_table_def-encode_table_def_example =
    decode_table_def-encode_table_def people people-IsPrintable

table_def_check-IsChecked_example :
    IsChecked checked × ((l : List (List Bytes)) × (checked ≡ record people { indexes = l }))
table_def_check-IsChecked_example = table_def_check-IsChecked people checked test_check

-- A store of key-value pairs as a function.
abbrev Store : Type 0
Store = Bytes → Option Bytes

abbrev put : Store → Bytes → Bytes → Store
put s k v j = if bytes_eq k j then some v else s j

put_self : (s : Store) (k v : Bytes) → put s k v k ≡ some v
put_self s k v = rw (bytes_eq_refl k) refl

put_other : (s : Store) (k v j : Bytes) → bytes_eq k j ≡ false → put s k v j ≡ s j
put_other s k v j h = rw h refl

abbrev store : Kv Store
store = record {
  get = λ s k. s k;
  set = λ s k v. ok (put s k v);
  get-set_same = λ s t k v e. ap (λ f. f k) (sym (ok-injective e)) ∙ put_self s k v;
  get-set_other = λ s t k v j e h. ap (λ f. f j) (sym (ok-injective e)) ∙ put_other s k v j h;
}

abbrev no_pairs : Store
no_pairs key = none

-- The store behind an allocation of `n` prefixes from `next` on.
abbrev allocated : Store → ℕ → Store
allocated s following = put s (internal_key 1 (text "next_prefix")) (u32_be following)

-- The checked table, before and after it gets its prefixes.
abbrev unplaced : TableDef
unplaced = record checked { prefix = 0; index_prefixes = [] }

abbrev draft : TableDef
draft = record people { prefix = 0; index_prefixes = [] }

test_draft : table_def_check draft ≡ ok unplaced
unfolding table_def_check check_indexes check_index_keys take_cols add_keys contains has_col
    col_index position bytes_eq
test_draft = refl

-- The same table as the first of a store.
abbrev settled : TableDef
settled = record checked { prefix = 3; index_prefixes = 4 ∷ [] }

test_prefixes : with_prefixes unplaced 3 ≡ settled
unfolding with_prefixes prefixes_from
test_prefixes = refl

settled-IsPrintable : IsPrintable settled
settled-IsPrintable = record {
  name = omega arith;
  cols = people-IsPrintable.cols;
  some_col = people-IsPrintable.some_col;
  parallel = refl;
  indexes = ((omega arith, (people-IsPrintable.cols.1.1.0, (people-IsPrintable.cols.0, tt))), tt);
  pkeys = omega arith;
  prefix = omega arith;
  index_prefixes = omega arith;
  sizes = omega arith;
}

abbrev placed : Store
placed =
    put (allocated no_pairs 5) (internal_key 2 (text "people"))
      (encode_table_def (with_prefixes unplaced 3))

get_table_def_from_kv-table_new_example :
    get_table_def_from_kv store placed (text "people") ≡ some (with_prefixes unplaced 3)
unfolding with_prefixes prefixes_from table_new alloc_prefix internal_get internal_set tdef_meta
    tdef_table table_def_builder add_col set_pkeys set_prefix internal_key read_u32 u32_be bytes_eq
    table_def_check check_indexes check_index_keys take_cols add_keys contains has_col col_index
    position
get_table_def_from_kv-table_new_example =
    get_table_def_from_kv-table_new store no_pairs (allocated no_pairs 5) placed draft unplaced 3
      test_draft refl settled-IsPrintable refl

-- A transaction that makes the table and looks it up.
abbrev began : Dbtx Store
began = record { kv_tx = no_pairs; cache = []; created_table = false }

abbrev made : Dbtx Store
made = record { kv_tx = placed; cache = []; created_table = true }

began-made : Run store began made
unfolding Db.table_new with_prefixes prefixes_from table_new alloc_prefix internal_get internal_set
    tdef_meta tdef_table table_def_builder add_col set_pkeys set_prefix internal_key read_u32 u32_be
    bytes_eq table_def_check check_indexes check_index_keys take_cols add_keys contains has_col
    col_index position
began-made = created began began made draft (started began) refl

Coherent-left_cache_example :
    Coherent store (commit (λ r. ok r) made).0 made.kv_tx
    × Coherent store (abort (λ r. no_pairs) made).0 no_pairs
unfolding begin find_cached
Coherent-left_cache_example =
    Coherent-left_cache store [] no_pairs made (λ name d cached. cc) began-made
