-- ===== src/Access/Scan.antt =====
-- The Scanner of include/access/scanner.h and src/access/scanner.cpp, and db_get of
-- src/access/table_access.cpp.
pub mod Found
pub mod Between
mod Tests
use sqldb.Base.{
  ℕ, Bool, true, false, List, [], ◌∷◌, Option, none, some, Bytes, if◌then◌else◌, Result, ok, stop,
  Stop, failed, absent, thrown, asserted, out_of_fuel, ◌>>=◌, ◌>>◌, ensure, or_stop,
}
use sqldb.Catalog.Value.{Value, ValueType}
use sqldb.Catalog.Record
use sqldb.Catalog.Record.{Record}
use sqldb.Catalog.TableDef.{TableDef, key_count, key_cols}
use sqldb.Catalog.Schema.{is_nonempty}
use sqldb.Storage.Cmp.{Cmp, cmp_ge, cmp_le, cmp_ok, is_forward}
use sqldb.Storage.Kv.Api.{Api}
use sqldb.Access.RowCodec.{col_type, typed_slots, decode_key, decode_row, check_record}
use sqldb.Access.Rows.{index_values}
use sqldb.Access.Table.{ScanPlan, Tree, primary, secondary, plan_scan, or_assert}

-- A Scanner that db_scan has set: its comparisons, what was planned for its keys, and where it stands.
pub record Scanner (Iter : Type 0) : Type 0 where
  pub cmp1 : Cmp
  pub cmp2 : Cmp
  pub plan : ScanPlan
  pub iter : Iter

-- The types of an index's columns.
unfoldable pub index_types : TableDef → List Bytes → Result (List ValueType)
index_types d [] = ok []
index_types d (col ∷ cols) = do
  t ← or_assert (col_type d col)
  rest ← index_types d cols
  ok (t ∷ rest)

unfoldable pub index_row : TableDef → List Bytes → Bytes → Bytes → Result Record
index_row d cols key val = do
  ensure (if is_nonempty val then false else true) asserted
  types ← index_types d cols
  vals ← decode_key key (typed_slots types)
  keys ← index_values (record { cols = cols; vals = vals }) (key_cols d)
  ok (record { cols = key_cols d; vals = keys })

-- The assertion on what db_get returns.
abbrev pub must_find : Result Record → Result Record
must_find (ok rec) = ok rec
must_find (stop (failed e)) = stop asserted
must_find (stop absent) = stop asserted
must_find (stop (thrown e)) = stop (thrown e)
must_find (stop asserted) = stop asserted
must_find (stop out_of_fuel) = stop out_of_fuel

module _ {S : Type 0} (api : Api S) where
  unfoldable pub scan_valid : Scanner api.Iter → Result Bool
  scan_valid sc =
      if api.valid sc.iter
      then (api.deref sc.iter >>= λ kv. ok (cmp_ok kv.0 sc.cmp2 sc.plan.key_end))
      else ok false

  unfoldable pub scan_next : S → Scanner api.Iter → Result (Scanner api.Iter)
  scan_next s sc = do
    good ← scan_valid sc
    ensure good asserted
    moved ← if is_forward sc.cmp1 then api.next s sc.iter else api.prev s sc.iter
    ok (record sc { iter = moved })

  -- deref, with the call that fetches the row of an index key.
  unfoldable pub deref_by : (Record → Result Record) → TableDef → Scanner api.Iter → Result Record
  deref_by fetch d sc = do
    good ← scan_valid sc
    ensure good asserted
    (key, val) ← api.deref sc.iter
    elim sc.plan.tree [
      | primary ↦ decode_row d key val
      | secondary i cols ↦ (index_row d cols key val >>= λ row. must_find (fetch row))
    ]

  unfoldable pub db_scan : TableDef → Cmp → Cmp → Record → Record → S → Result (Scanner api.Iter)
  db_scan d cmp1 cmp2 key1 key2 s = do
    plan ← plan_scan d cmp1 cmp2 key1 key2
    iter ← api.seek plan.key_start cmp1 s
    ok (record { cmp1 = cmp1; cmp2 = cmp2; plan = plan; iter = iter })

  -- The scan goes over the primary key, so its deref fetches no other row.
  unfoldable pub db_get : TableDef → Record → S → Result Record
  db_get d rec s = do
    vals ← check_record d rec (key_count d)
    let key : Record = record { cols = key_cols d; vals = vals }
    sc ← db_scan d cmp_ge cmp_le key key s
    good ← scan_valid sc
    if good then deref_by (λ row. stop out_of_fuel) d sc else stop absent

  unfoldable pub scan_deref : TableDef → S → Scanner api.Iter → Result Record
  scan_deref d s sc = deref_by (λ row. db_get d row s) d sc
