-- ===== src/Db.antt =====
-- The facade that applications call: include/db.h and src/db.cpp. A write transaction is known by its pages
-- and pairs, by the definitions that the DB's catalog caches for it, and by its flag; a reader by its
-- snapshot and its own definitions. KV's begin, commit and abort are parameters here and stand in
-- Storage/Kv.
pub mod Cached
pub mod Written
use sqldb.Base.{
  Bool, true, false, List, [], ◌∷◌, ◌++◌, Option, none, some, Bytes, text, if◌then◌else◌, Result,
  ok, stop, failed, ◌>>=◌,
}
use sqldb.Catalog.Record.{Record}
use sqldb.Catalog.TableDef.{TableDef}
use sqldb.Catalog.Store
use sqldb.Catalog.Store.{Kv, Cache, find_cached, get_table_def, get_table_def_from_kv}
use sqldb.Storage.Cmp.{Cmp}
use sqldb.Storage.Kv.Tx.{UpdateMode, upsert, update_only, insert_only}
use sqldb.Storage.Kv.Api.{Api}
use sqldb.Access.Rows.{db_update, db_delete}
use sqldb.Access.Scan.{Scanner, db_get, db_scan, scan_valid, scan_next, scan_deref}
use sqldb.Ql.Exec.{Reads, Writes}

-- DBTX, with catalog_.cache_ of its DB, which only the write transaction uses.
pub record Dbtx (S : Type 0) : Type 0 where
  pub kv_tx : S
  pub cache : Cache
  pub created_table : Bool

-- DBReader
pub record DbReader (S : Type 0) : Type 0 where
  pub kv_reader : S
  pub tables : Cache

-- A pointer to a definition, or the error of find_table.
abbrev or_not_found : {T : Type 0} → Bytes → Option TableDef → T → Result (TableDef × T)
or_not_found table none t = stop (failed (text "table not found: " ++ table))
or_not_found table (some d) t = ok (d, t)

module _ {S : Type 0} where
  unfoldable pub begin : (S → S) → Cache → S → Dbtx S
  begin kv_begin cache s = record { kv_tx = kv_begin s; cache = cache; created_table = false }

  -- The cache that a transaction leaves to the DB.
  unfoldable pub left_cache : Dbtx S → Cache
  left_cache tx = if tx.created_table then [] else tx.cache

  unfoldable pub commit : (S → Result S) → Dbtx S → Cache × Result S
  commit kv_commit tx = (left_cache tx, kv_commit tx.kv_tx)

  unfoldable pub abort : (S → S) → Dbtx S → Cache × S
  abort kv_abort tx = (left_cache tx, kv_abort tx.kv_tx)

  unfoldable pub begin_read : (S → S) → S → DbReader S
  begin_read kv_begin_read s = record { kv_reader = kv_begin_read s; tables = [] }

  unfoldable pub end_read : (S → S) → DbReader S → S
  end_read kv_end_read tx = kv_end_read tx.kv_reader

  module _ (kv : Kv S) where
    -- DBReader::find_table, with the definitions that the reader keeps behind it.
    unfoldable pub read_table_def : Bytes → DbReader S → Option TableDef × Cache
    read_table_def table tx = elim (find_cached tx.tables table) [
      | some d ↦ (some d, tx.tables)
      | none ↦ elim (get_table_def_from_kv kv tx.kv_reader table) [
        | none ↦ (none, tx.tables)
        | some d ↦ (some d, (table, d) ∷ tx.tables)
      ]
    ]

    unfoldable pub reader_find_table : Bytes → DbReader S → Result (TableDef × DbReader S)
    reader_find_table table tx =
        let found = read_table_def table tx in
        or_not_found table found.0 (record tx { tables = found.1 })

    -- DBTX::find_table
    unfoldable pub find_table : Bytes → Dbtx S → Result (TableDef × Dbtx S)
    find_table table tx =
        let found = get_table_def kv tx.cache tx.kv_tx table in
        or_not_found table found.0 (record tx { cache = found.1 })

    unfoldable pub table_new : TableDef → Dbtx S → Result (Dbtx S)
    table_new d tx =
        Store.table_new kv tx.kv_tx d >>= λ s. ok (record tx { kv_tx = s; created_table = true })

    module _ (api : Api S) where
      unfoldable pub get : Bytes → Record → Dbtx S → Result (Record × Dbtx S)
      get table rec tx = do
        (d, t) ← find_table table tx
        row ← db_get api d rec t.kv_tx
        ok (row, t)

      unfoldable pub write : UpdateMode → Bytes → Record → Dbtx S → Result (Dbtx S)
      write mode table rec tx = do
        (d, t) ← find_table table tx
        s ← db_update api d rec mode t.kv_tx
        ok (record t { kv_tx = s })

      unfoldable pub insert : Bytes → Record → Dbtx S → Result (Dbtx S)
      insert table rec tx = write insert_only table rec tx

      unfoldable pub update : Bytes → Record → Dbtx S → Result (Dbtx S)
      update table rec tx = write update_only table rec tx

      unfoldable pub upsert_row : Bytes → Record → Dbtx S → Result (Dbtx S)
      upsert_row table rec tx = write upsert table rec tx

      unfoldable pub del : Bytes → Record → Dbtx S → Result (Dbtx S)
      del table rec tx = do
        (d, t) ← find_table table tx
        s ← db_delete api d rec t.kv_tx
        ok (record t { kv_tx = s })

      -- A scanner of the access layer, with the definition that it points to.
      unfoldable pub scan :
          Bytes
          → Cmp
          → Cmp
          → Record
          → Record
          → Dbtx S
          → Result ((TableDef × Scanner api.Iter) × Dbtx S)
      scan table cmp1 cmp2 key1 key2 tx = do
        (d, t) ← find_table table tx
        sc ← db_scan api d cmp1 cmp2 key1 key2 t.kv_tx
        ok ((d, sc), t)

      unfoldable pub reader_get : Bytes → Record → DbReader S → Result (Record × DbReader S)
      reader_get table rec tx = do
        (d, t) ← reader_find_table table tx
        row ← db_get api d rec t.kv_reader
        ok (row, t)

      unfoldable pub reader_scan :
          Bytes
          → Cmp
          → Cmp
          → Record
          → Record
          → DbReader S
          → Result ((TableDef × Scanner api.Iter) × DbReader S)
      reader_scan table cmp1 cmp2 key1 key2 tx = do
        (d, t) ← reader_find_table table tx
        sc ← db_scan api d cmp1 cmp2 key1 key2 t.kv_reader
        ok ((d, sc), t)

      -- What the statements of the query language call.
      abbrev moved : TableDef → S → Scanner api.Iter → Result (TableDef × Scanner api.Iter)
      moved d s sc = scan_next api s sc >>= λ on. ok (d, on)

      unfoldable pub tx_reads : Reads (Dbtx S)
      tx_reads = record {
        Scan = TableDef × Scanner api.Iter;
        table_def = find_table;
        scan = scan;
        valid = λ sc. scan_valid api sc.1;
        next = λ tx sc. moved sc.0 tx.kv_tx sc.1;
        deref = λ tx sc. scan_deref api sc.0 tx.kv_tx sc.1;
      }

      unfoldable pub reader_reads : Reads (DbReader S)
      reader_reads = record {
        Scan = TableDef × Scanner api.Iter;
        table_def = reader_find_table;
        scan = reader_scan;
        valid = λ sc. scan_valid api sc.1;
        next = λ tx sc. moved sc.0 tx.kv_reader sc.1;
        deref = λ tx sc. scan_deref api sc.0 tx.kv_reader sc.1;
      }

      unfoldable pub tx_writes : Writes (Dbtx S)
      tx_writes = record {
        table_new = table_new;
        insert_row = insert;
        update_row = update;
        upsert_row = upsert_row;
        del_row = del;
      }
