-- ===== src/Catalog/TableDef.antt =====
-- include/catalog/tabledef.h: the definition of a table and its builder.
use sqldb.Base.{ℕ, List, [], ◌∷◌, ◌++◌, ℤ, pos, negsuc, Bytes, take, text}
use sqldb.Catalog.Value.{ValueType, bytes}

pub record TableDef : Type 0 where
  pub name : Bytes
  pub types : List ValueType
  pub cols : List Bytes
  pub pkeys : ℤ
  pub indexes : List (List Bytes)
  pub prefix : ℕ
  pub index_prefixes : List ℕ

-- TableDefBuilder holds the definition under construction.
unfoldable pub table_def_builder : Bytes → TableDef
table_def_builder name = record {
  name = name;
  types = [];
  cols = [];
  pkeys = pos 0;
  indexes = [];
  prefix = 0;
  index_prefixes = [];
}

unfoldable pub add_col : Bytes → ValueType → TableDef → TableDef
add_col name type d = record d { cols = d.cols ++ name ∷ []; types = d.types ++ type ∷ [] }

unfoldable pub set_pkeys : ℤ → TableDef → TableDef
set_pkeys n d = record d { pkeys = n }

unfoldable pub add_index : List Bytes → TableDef → TableDef
add_index cols d = record d { indexes = d.indexes ++ cols ∷ [] }

unfoldable pub set_prefix : ℕ → TableDef → TableDef
set_prefix p d = record d { prefix = p }

-- `pkeys` as a count of columns; table_def_check has refused a negative one.
abbrev pub key_count : TableDef → ℕ
key_count d = elim d.pkeys [ pos n ↦ n | negsuc n ↦ 0 ]

-- The first pkeys columns.
abbrev pub key_cols : TableDef → List Bytes
key_cols d = take (key_count d) d.cols

-- The bootstrap tables.
unfoldable pub tdef_meta : TableDef
unfolding table_def_builder add_col set_pkeys set_prefix
tdef_meta = set_prefix 1 (
    set_pkeys (pos 1)
      (add_col (text "val") bytes (add_col (text "key") bytes (table_def_builder (text "@meta")))))

unfoldable pub tdef_table : TableDef
unfolding table_def_builder add_col set_pkeys set_prefix
tdef_table = set_prefix 2 (
    set_pkeys (pos 1) (
      add_col (text "def") bytes (add_col (text "name") bytes (table_def_builder (text "@table")))))
