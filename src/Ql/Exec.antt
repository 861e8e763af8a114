-- ===== src/Ql/Exec.antt =====
-- The statements of src/ql/ql_exec.cpp, over the operations of DBReader and DBTX that they call. A statement
-- that stops leaves its transaction to be aborted.
pub mod Rows
pub mod Assign
mod Tests
use sqldb.Base.{
  ℕ, zero, suc, ◌+◌, Bool, true, false, not, ◌&&◌, List, [], ◌∷◌, ◌++◌, Option, none, some, length,
  ltb, leb, ◌==◌, if◌then◌else◌, ℤ, pos, negsuc, Bytes, text, bytes_eq, Result, ok, stop, failed,
  asserted, out_of_fuel, ◌>>=◌, ◌>>◌, ensure, or_stop,
}
use sqldb.Catalog.Value.{Value, int_64, type_eq, int_eq}
use sqldb.Catalog.Record
use sqldb.Catalog.Record.{Record, empty}
use sqldb.Catalog.TableDef.{TableDef, key_count, key_cols}
use sqldb.Catalog.Schema.{col_index}
use sqldb.Catalog.TextForm.Stream.{show_nat}
use sqldb.Storage.Cmp.{Cmp}
use sqldb.Storage.Kv.Tx.{UpdateMode, upsert, update_only, insert_only}
use sqldb.Ql.Ast.{
  QlNode, uninit, star, tag, tag_eq, QlScan, QlSelect, QlInsert, QlUpdate, QlDelete, QlCreateTable,
  QlStatement, create_table, select, insert, update, delete,
}
use sqldb.Ql.Eval.{ql_eval}
use sqldb.Ql.Range.{ql_range}

-- What scan_rows asks of a DBReader or a DBTX, whose state keeps the definitions that it has read.
pub record Reads (S : Type 0) : Type 1 where
  pub Scan : Type 0
  pub table_def : Bytes → S → Result (TableDef × S)
  pub scan : Bytes → Cmp → Cmp → Record → Record → S → Result (Scan × S)
  pub valid : Scan → Result Bool
  pub next : S → Scan → Result Scan
  pub deref : S → Scan → Result Record

-- What the statements that write ask of a DBTX.
pub record Writes (S : Type 0) : Type 0 where
  pub table_new : TableDef → S → Result S
  pub insert_row : Bytes → Record → S → Result S
  pub update_row : Bytes → Record → S → Result S
  pub upsert_row : Bytes → Record → S → Result S
  pub del_row : Bytes → Record → S → Result S

-- Does the filter keep the row?
unfoldable pub keeps : QlNode → Record → Result Bool
keeps filter rec =
    let tested = (do
      v ← ql_eval filter rec
      ensure (type_eq v.type int_64) (failed (text "WHERE is not a boolean"))
      ok (not (int_eq v.int64 (pos 0)))) in
    if tag_eq (tag filter) uninit then ok true else tested

-- `skipped < req.offset`, and `req.limit >= 0 && taken >= req.limit`.
unfoldable pub to_skip : ℕ → ℤ → Bool
to_skip skipped (pos n) = ltb skipped n
to_skip skipped (negsuc n) = false

unfoldable pub is_full : ℕ → ℤ → Bool
is_full taken (pos n) = leb n taken
is_full taken (negsuc n) = false

-- select_rows on one row: the output columns, each an expression or the row's own columns.
unfoldable pub output_row : List QlNode → List Bytes → Record → Result Record
output_row [] names row = ok empty
output_row (expr ∷ output) names row = do
  rest_names ← elim names [ [] ↦ ok [] | _ ∷ later ↦ ok later ]
  here ← if tag_eq (tag expr) star then ok row else (do
    name ← elim names [ [] ↦ stop asserted | n ∷ _ ↦ ok n ]
    v ← ql_eval expr row
    ok (record { cols = name ∷ []; vals = v ∷ [] }))
  rest ← output_row output rest_names row
  ok (record { cols = here.cols ++ rest.cols; vals = here.vals ++ rest.vals })

unfoldable pub output_rows : List QlNode → List Bytes → List Record → Result (List Record)
output_rows output names [] = ok []
output_rows output names (row ∷ rows) = do
  out ← output_row output names row
  rest ← output_rows output names rows
  ok (out ∷ rest)

unfoldable pub primary_key : List Bytes → Record → Result Record
primary_key [] row = ok empty
primary_key (col ∷ pk) row = do
  v ← or_stop (Record.get row col) (failed (text "row is missing primary key column: " ++ col))
  rest ← primary_key pk row
  ok (record { cols = col ∷ rest.cols; vals = v ∷ rest.vals })

-- The values of a list of expressions against a row.
unfoldable pub eval_list : List QlNode → Record → Result (List Value)
eval_list [] env = ok []
eval_list (expr ∷ exprs) env = do v ← ql_eval expr env; rest ← eval_list exprs env; ok (v ∷ rest)

-- An assignment of ql_update: the first column of the name gets the value.
unfoldable pub set_col : List Bytes → List Value → Bytes → Value → List Value
set_col [] vals name v = vals
set_col (c ∷ cols) [] name v = []
set_col (c ∷ cols) (old ∷ vals) name v =
    let rest = set_col cols vals name v in if bytes_eq c name then v ∷ vals else old ∷ rest

unfoldable pub assign : List Bytes → List Value → Record → Result Record
assign [] vals row = ok row
assign (name ∷ names) [] row = stop asserted
assign (name ∷ names) (v ∷ vals) row =
    assign names vals (record row { vals = set_col row.cols row.vals name v })

-- ql_update's checks of the columns that it sets.
unfoldable pub check_set : TableDef → List Bytes → Result (Unit {0})
check_set d [] = ok tt
check_set d (name ∷ names) = do
  at ← or_stop (col_index d name) (failed (text "unknown column: " ++ name))
  ensure (not (ltb at (key_count d))) (failed (text "cannot update a primary key column: " ++ name))
  check_set d names

-- QLResult
pub record QlResult : Type 0 where
  pub rows : List Record
  pub count : ℕ

module _ {S : Type 0} (tx : Reads S) where
  -- The loop of scan_rows, with a bound on the rows that it visits.
  unfoldable pub scan_loop : ℕ → QlScan → S → tx.Scan → ℕ → ℕ → Result (List Record)
  scan_loop zero req s sc skipped taken = stop out_of_fuel
  scan_loop (suc fuel) req s sc skipped taken = do
    let later : ℕ → ℕ → Result (List Record) =
        λ skipped taken. tx.next s sc >>= λ moved. scan_loop fuel req s moved skipped taken
    good ← tx.valid sc
    let visit = (do
      rec ← tx.deref s sc
      keep ← keeps req.filter rec
      if not keep
          then later skipped taken
          else if to_skip skipped req.offset
          then later (suc skipped) taken
          else if is_full taken req.limit
          then ok []
          else (later skipped (suc taken) >>= λ rest. ok (rec ∷ rest)))
    if good then visit else ok []

  unfoldable pub scan_rows : ℕ → QlScan → S → Result (List Record × S)
  scan_rows fuel req s = do
    ensure (tag_eq (tag req.key1) uninit && tag_eq (tag req.key2) uninit)
        (failed (text "INDEX BY is not supported; this query language filters with WHERE"))
    (d, t) ← tx.table_def req.table s
    let range = ql_range req.filter d
    (sc, u) ← tx.scan req.table range.cmp1 range.cmp2 range.key1 range.key2 t
    rows ← scan_loop fuel req u sc 0 0
    ok (rows, u)

  unfoldable pub select_rows : ℕ → QlSelect → S → Result (List Record × S)
  select_rows fuel req s = do
    (rows, t) ← scan_rows fuel req.scan s
    out ← output_rows req.output req.names rows
    ok (out, t)

  -- ql_exec on a reader.
  unfoldable pub exec_read : ℕ → QlStatement → S → Result (QlResult × S)
  exec_read fuel (select req) s =
      select_rows fuel req s >>= λ r. ok (record { rows = r.0; count = 0 }, r.1)
  exec_read fuel stmt s =
      stop
        (failed (text "only SELECT can run on a reader; this statement needs a write transaction"))

  module _ (txw : Writes S) where
    unfoldable pub write_row : UpdateMode → Bytes → Record → S → Result S
    write_row insert_only table rec s = txw.insert_row table rec s
    write_row update_only table rec s = txw.update_row table rec s
    write_row upsert table rec s = txw.upsert_row table rec s

    -- ql_insert, with the rows that it has counted.
    unfoldable pub insert_rows : QlInsert → List (List QlNode) → ℕ → S → Result (ℕ × S)
    insert_rows req [] count s = ok (count, s)
    insert_rows req (values ∷ later) count s = do
      ensure (length values == length req.names) (
          failed (
            text "row has "
            ++ show_nat (length values)
            ++ text " values but "
            ++ show_nat (length req.names)
            ++ text " columns were named"))
      vals ← eval_list values empty
      t ← write_row req.mode req.table (record { cols = req.names; vals = vals }) s
      insert_rows req later (suc count) t

    unfoldable pub ql_insert : QlInsert → S → Result (ℕ × S)
    ql_insert req s = insert_rows req req.values 0 s

    unfoldable pub update_rows : QlUpdate → List Record → ℕ → S → Result (ℕ × S)
    update_rows req [] count s = ok (count, s)
    update_rows req (row ∷ rows) count s = do
      next ← eval_list req.values row
      changed ← assign req.names next row
      t ← txw.update_row req.scan.table changed s
      update_rows req rows (suc count) t

    unfoldable pub ql_update : ℕ → QlUpdate → S → Result (ℕ × S)
    ql_update fuel req s = do
      (d, t) ← tx.table_def req.scan.table s
      check_set d req.names
      (rows, u) ← scan_rows fuel req.scan t
      update_rows req rows 0 u

    unfoldable pub delete_rows : Bytes → List Bytes → List Record → ℕ → S → Result (ℕ × S)
    delete_rows table pk [] count s = ok (count, s)
    delete_rows table pk (row ∷ rows) count s = do
      key ← primary_key pk row
      t ← txw.del_row table key s
      delete_rows table pk rows (suc count) t

    unfoldable pub ql_delete : ℕ → QlDelete → S → Result (ℕ × S)
    ql_delete fuel req s = do
      (d, t) ← tx.table_def req.scan.table s
      (rows, u) ← scan_rows fuel req.scan t
      delete_rows req.scan.table (key_cols d) rows 0 u

    abbrev counted : Result (ℕ × S) → Result (QlResult × S)
    counted call = call >>= λ r. ok (record { rows = []; count = r.0 }, r.1)

    -- ql_exec on a write transaction.
    unfoldable pub exec : ℕ → QlStatement → S → Result (QlResult × S)
    exec fuel (create_table req) s =
        txw.table_new req.def s >>= λ t. ok (record { rows = []; count = 0 }, t)
    exec fuel (select req) s =
        select_rows fuel req s >>= λ r. ok (record { rows = r.0; count = 0 }, r.1)
    exec fuel (insert req) s = counted (ql_insert req s)
    exec fuel (update req) s = counted (ql_update fuel req s)
    exec fuel (delete req) s = counted (ql_delete fuel req s)

    -- ql_run, with the parser.
    unfoldable pub ql_run : (Bytes → Result QlStatement) → ℕ → Bytes → S → Result (QlResult × S)
    ql_run parse_statement fuel sql s = parse_statement sql >>= λ stmt. exec fuel stmt s
