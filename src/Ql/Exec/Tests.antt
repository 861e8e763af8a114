-- ===== src/Ql/Exec/Tests.antt =====
-- Statements over a list of rows.
use sqldb.Base.{
  ℕ, ◌≡◌, refl, true, false, [], ◌∷◌, List, pos, bytes_eq, text, ok, stop, asserted, arith,
}
use sqldb.Catalog.Value.{int_64, error, blank, make_int64, make_bytes}
use sqldb.Catalog.Record
use sqldb.Catalog.Record.{Record, empty}
use sqldb.Catalog.TableDef.{TableDef}
use sqldb.Ql.Ast.{node, nil, uninit, gt, ql_binop, ql_sym, ql_int64, QlScan}
use sqldb.Ql.Eval.{ql_eval, eval_node, eval_compare, kid, compare_values, make_bool, cmp_holds}
use sqldb.Ql.Exec.{Reads, keeps, scan_rows, assign, set_col}
use sqldb.Ql.Exec.Rows.{filter_rows, Ahead, at_row, at_end, skip_rows, limit_rows, scan_rows-window}
use sqldb.Ql.Exec.Assign.{assigned, assign-assigned}

abbrev pairs : TableDef
pairs = record {
  name = text "pairs";
  types = int_64 ∷ int_64 ∷ [];
  cols = text "a" ∷ text "b" ∷ [];
  pkeys = pos 1;
  indexes = [];
  prefix = 3;
  index_prefixes = [];
}

-- A reader of the given rows, whatever the range.
abbrev reads : List Record → Reads Unit
reads rows = record {
  Scan = List Record;
  table_def = λ table s. ok (pairs, s);
  scan = λ table cmp1 cmp2 key1 key2 s. ok (rows, s);
  valid = λ sc. elim sc [ [] ↦ ok false | _ ∷ _ ↦ ok true ];
  next = λ s sc. elim sc [ [] ↦ stop asserted | _ ∷ later ↦ ok later ];
  deref = λ s sc. elim sc [ [] ↦ stop asserted | row ∷ _ ↦ ok row ];
}

abbrev row : ℕ → ℕ → Record
row a b = record { cols = pairs.cols; vals = make_int64 (pos a) ∷ make_int64 (pos b) ∷ [] }

abbrev four : List Record
four = row 1 10 ∷ row 2 0 ∷ row 3 30 ∷ row 4 40 ∷ []

-- SELECT ... FROM pairs WHERE b > 0 LIMIT 1 OFFSET 1
abbrev request : QlScan
request = record {
  table = text "pairs";
  key1 = node uninit (blank error) nil;
  key2 = node uninit (blank error) nil;
  filter = ql_binop gt (ql_sym (text "b")) (ql_int64 (pos 0));
  offset = pos 1;
  limit = pos 1;
}

four-Ahead : Ahead (reads four) tt four four
four-Ahead = at_row four (row 2 0 ∷ row 3 30 ∷ row 4 40 ∷ []) (row 1 10) _ refl refl refl (
    at_row _ (row 3 30 ∷ row 4 40 ∷ []) (row 2 0) _ refl refl refl (
      at_row _ (row 4 40 ∷ []) (row 3 30) _ refl refl refl
        (at_row _ [] (row 4 40) [] refl refl refl (at_end [] refl))))

scan_rows-window_example :
    scan_rows (reads four) 5 request tt
    ≡ ok (limit_rows 0 (pos 1) (skip_rows 0 (pos 1) (row 1 10 ∷ row 3 30 ∷ row 4 40 ∷ [])), tt)
unfolding filter_rows keeps ql_eval ql_binop eval_node eval_compare kid ql_sym Record.get
    Record.find_value bytes_eq make_bytes ql_int64 compare_values make_int64 make_bool cmp_holds
scan_rows-window_example =
    scan_rows-window (reads four) 5 request tt tt tt pairs four four
      (row 1 10 ∷ row 3 30 ∷ row 4 40 ∷ []) refl refl refl refl four-Ahead (omega arith) refl

-- SET a = ..., b = ... with the values of the other column.
assign-assigned_example :
    ((row 10 1).cols ≡ (row 1 10).cols)
    × (Record.get (row 10 1) (text "b")
        ≡ assigned
            (text "a" ∷ text "b" ∷ [])
            (make_int64 (pos 10) ∷ make_int64 (pos 1) ∷ [])
            (text "b")
            (Record.get (row 1 10) (text "b")))
unfolding assign set_col bytes_eq
assign-assigned_example =
    assign-assigned (text "a" ∷ text "b" ∷ []) (make_int64 (pos 10) ∷ make_int64 (pos 1) ∷ [])
      (row 1 10) (row 10 1) (text "b") refl
