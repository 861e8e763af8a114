-- ===== src/Db/Written.antt =====
-- A row that DBTX::insert has written is what DBTX::get returns.
use sqldb.Base.{
  ◌≡◌, ◌≤◌, refl, List, none, some, length, take, Bytes, bytes_eq_refl, ok, Option-cases, inl, inr,
  All, arith,
}
use sqldb.Catalog.Value.{Value, IsStored}
use sqldb.Catalog.Record.{Record}
use sqldb.Catalog.TableDef.{TableDef, key_count}
use sqldb.Catalog.Store.{Kv, find_cached, get_table_def, get_table_def_from_kv}
use sqldb.Storage.SortedMap.{Pairs, find, put}
use sqldb.Storage.Kv.Tx.{insert_only}
use sqldb.Storage.Kv.Api.{Api}
use sqldb.Access.RowCodec.{check_record}
use sqldb.Access.Rows.Indexed.{Fresh}
use sqldb.Access.Rows.Effect.{IsRow}
use sqldb.Access.Scan.Found.{OwnTypes, db_get-db_update}
use sqldb.Db.{Dbtx, find_table, insert, write, get}

module _ {S : Type 0} (kv : Kv S) where
  -- A definition that find_table has returned is in the cache behind it.
  find_cached-find_table :
      (tx t : Dbtx S) (table : Bytes) (d : TableDef)
      → find_table kv table tx ≡ ok (d, t)
      → find_cached t.cache table ≡ some d
  unfolding find_table get_table_def find_cached
  find_cached-find_table tx t table d found = elim (Option-cases (find_cached tx.cache table)) [
    | inr (c, cached) ↦ ground (arith, cached, found)
    | inl absent ↦ elim (Option-cases (get_table_def_from_kv kv tx.kv_tx table)) [
      | inl nowhere ↦ absurd (ground (arith, absent, nowhere, found))
      | inr (c, stored) ↦ ground (arith, absent, stored, found, bytes_eq_refl table)
    ]
  ]

  find_table_cached :
      (tx : Dbtx S) (table : Bytes) (d : TableDef)
      → find_cached tx.cache table ≡ some d
      → find_table kv table tx ≡ ok (d, tx)
  unfolding find_table get_table_def
  find_table_cached tx table d cached = ground (arith, cached)

  -- For a table with a type for every column, whose key columns are each the first of their name, a new row of
  -- stored values, within the limits, with index keys that are not taken: insert returns, and get behind it, in
  -- the same transaction, returns the row for its primary key, every column in the table's order.
  pub get-insert_row :
      (api : Api S) (tx t : Dbtx S) (table : Bytes) (d : TableDef) (rec key_rec : Record)
      (vals : List Value) (key val : Bytes) (keys : List Bytes) (kvs : Pairs)
      → find_table kv table tx ≡ ok (d, t)
      → OwnTypes d
      → length d.cols ≡ length d.types
      → key_count d ≤ length d.cols
      → IsRow d rec vals key val keys
      → All IsStored vals
      → check_record d key_rec (key_count d) ≡ ok (take (key_count d) vals)
      → api.Stands t.kv_tx kvs
      → find key kvs ≡ none
      → Fresh keys (put key val kvs)
      → (u : Dbtx S) × (insert kv api table rec tx ≡ ok u)
        × (get kv api table key_rec u ≡ ok (record { cols = d.cols; vals = vals }, u))
  unfolding insert write get
  get-insert_row api tx t table d rec key_rec vals key val keys kvs found own parallel covered row
        are_stored same_key stands new fresh =
      let (s, written, got) =
        db_get-db_update api d rec key_rec vals key val keys insert_only t.kv_tx kvs own parallel
          covered row are_stored same_key stands new refl fresh in
      let u : Dbtx S = record t { kv_tx = s } in
      let again = find_table_cached u table d (find_cached-find_table tx t table d found) in
      (u, rw (found, written) refl, rw (again, got) refl)
