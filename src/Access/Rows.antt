-- ===== src/Access/Rows.antt =====
-- Writes of rows: src/access/index_ops.cpp, and db_update and db_delete of src/access/table_access.cpp. A
-- call that stops leaves its transaction to be aborted, so what it has written by then is not returned.
pub mod Indexed
pub mod Effect
use sqldb.Base.{
  ℕ, Bool, true, false, not, List, [], ◌∷◌, ◌++◌, Option, none, some, map, take, drop, length, ◌==◌,
  Bytes, text, if◌then◌else◌, Result, ok, stop, failed, absent, asserted, ◌>>=◌, ◌>>◌, ensure,
  or_stop,
}
use sqldb.Catalog.Value.{Value}
use sqldb.Catalog.Record
use sqldb.Catalog.Record.{Record}
use sqldb.Catalog.TableDef.{TableDef, key_count}
use sqldb.Catalog.Schema.{is_nonempty}
use sqldb.Encoding.{encode_values}
use sqldb.Storage.Kv.Tx.{UpdateMode, insert_only, Reply}
use sqldb.Storage.Kv.Api.{Api}
use sqldb.Access.RowCodec.{encode_key, decode_row, check_record}

-- INDEX_ADD and INDEX_DEL.
pub data IndexOp : Type 0 where
  index_add index_del : IndexOp

-- Columns of a record, which has them all: those of an index in index_op, and those of the primary key in
-- Scanner::deref.
unfoldable pub index_values : Record → List Bytes → Result (List Value)
index_values rec [] = ok []
index_values rec (col ∷ cols) = do
  v ← or_stop (Record.get rec col) asserted
  rest ← index_values rec cols
  ok (v ∷ rest)

unfoldable pub index_key : Record → List Bytes → ℕ → Result Bytes
index_key rec cols prefix = index_values rec cols >>= λ vals. encode_key prefix vals

-- What an update that is not done says in *err.
unfoldable pub refusal : TableDef → Bool → Bytes
refusal d added =
    (if added then text "row does not exist in table: " else text "row already exists in table: ")
    ++ d.name

module _ {S : Type 0} (api : Api S) where
  -- The switch on op, with the assertion behind it.
  unfoldable pub index_write : IndexOp → Bytes → S → Result S
  index_write index_add key s = do
    r ← api.update insert_only key [] s
    ensure r.done asserted
    ok r.store
  index_write index_del key s = do (done, t) ← api.remove key s; ensure done asserted; ok t

  -- The loop of index_op over the indexes and their prefixes.
  unfoldable pub index_loop : IndexOp → Record → List (List Bytes) → List ℕ → S → Result S
  index_loop op rec [] prefixes s = ok s
  index_loop op rec (cols ∷ indexes) [] s = stop asserted
  index_loop op rec (cols ∷ indexes) (prefix ∷ prefixes) s = do
    key ← index_key rec cols prefix
    t ← index_write op key s
    index_loop op rec indexes prefixes t

  unfoldable pub index_op : TableDef → Record → IndexOp → S → Result S
  index_op d rec op s = do
    ensure (length d.index_prefixes == length d.indexes) asserted
    index_loop op rec d.indexes d.index_prefixes s

  -- What a write of a row does to its indexes: the keys of the old row go, and those of the new one come.
  unfoldable pub drop_old : TableDef → Bytes → Bytes → S → Result S
  drop_old d key old s = decode_row d key old >>= λ row. index_op d row index_del s

  unfoldable pub db_update : TableDef → Record → UpdateMode → S → Result S
  db_update d rec mode s = do
    vals ← check_record d rec (length d.cols)
    key ← encode_key d.prefix (take (key_count d) vals)
    val ← encode_values (drop (key_count d) vals)
    r ← api.update mode key val s
    ensure r.done (failed (refusal d r.added))
    let indexed = (do
      t ← if r.added then ok r.store else drop_old d key r.old r.store
      index_op d rec index_add t)
    if is_nonempty d.indexes then indexed else ok r.store

  unfoldable pub db_delete : TableDef → Record → S → Result S
  db_delete d rec s = do
    vals ← check_record d rec (key_count d)
    key ← encode_key d.prefix vals
    r ← api.del key s
    ensure r.done absent
    if is_nonempty d.indexes then drop_old d key r.old r.store else ok r.store
