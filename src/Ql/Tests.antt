-- ===== src/Ql/Tests.antt =====
-- Expressions, a filter and its range at concrete values.
use sqldb.Base.{◌≡◌, refl, true, [], ◌∷◌, pos, ◌+ℤ◌, bytes_eq, lex, text}
use sqldb.Catalog.Value.{int_64, make_int64, make_bytes, blank}
use sqldb.Catalog.Record.{Record, get, find_value}
use sqldb.Catalog.TableDef.{TableDef}
use sqldb.Ql.Ast.{QlNode, and, eq, lt, add, ql_int64, ql_sym, ql_binop}
use sqldb.Ql.Arith.{fits, arithmetic}
use sqldb.Ql.Eval.{
  ql_eval, eval_node, eval_and_or, kid, eval_compare, compare_values, eval_arith, cmp_holds,
  eval_logic, make_bool,
}
use sqldb.Ql.Eval.Stored.{LiteralsFit, ql_eval-fits}
use sqldb.Ql.Range.{ql_range}
use sqldb.Ql.Range.Collect.{Keeps}
use sqldb.Ql.Range.Sound.{Contains, ql_range-Contains}

abbrev points : TableDef
points = record {
  name = text "points";
  types = int_64 ∷ int_64 ∷ int_64 ∷ [];
  cols = text "a" ∷ text "b" ∷ text "c" ∷ [];
  pkeys = pos 1;
  indexes = (text "b" ∷ text "a" ∷ []) ∷ [];
  prefix = 100;
  index_prefixes = 101 ∷ [];
}

-- b = 2 AND a < 1 + 4
abbrev filter : QlNode
filter =
    ql_binop and (ql_binop eq (ql_sym (text "b")) (ql_int64 (pos 2)))
      (ql_binop lt (ql_sym (text "a")) (ql_binop add (ql_int64 (pos 1)) (ql_int64 (pos 4))))

abbrev row : Record
row = record {
  cols = text "a" ∷ text "b" ∷ text "c" ∷ [];
  vals = make_int64 (pos 3) ∷ make_int64 (pos 2) ∷ make_int64 (pos 0) ∷ [];
}

row_kept : Keeps filter row
unfolding ql_eval ql_binop eval_node eval_and_or kid eval_compare ql_sym get find_value bytes_eq
    make_bytes ql_int64 compare_values make_int64 eval_arith arithmetic ◌+ℤ◌ lex blank cmp_holds
    eval_logic make_bool LiteralsFit
row_kept = (make_int64 (pos 1), refl, refl, refl)

ql_range-Contains_example : Contains (ql_range filter points) row
ql_range-Contains_example = ql_range-Contains filter points row row_kept

abbrev sum : QlNode
sum = ql_binop add (ql_int64 (pos 1)) (ql_int64 (pos 4))

ql_eval-fits_example : fits (make_int64 (pos 5)).int64 ≡ true
unfolding ql_eval ql_binop eval_node eval_and_or kid eval_compare ql_sym get find_value bytes_eq
    make_bytes ql_int64 compare_values make_int64 eval_arith arithmetic ◌+ℤ◌ lex blank cmp_holds
    eval_logic make_bool LiteralsFit
ql_eval-fits_example =
    ql_eval-fits sum row (make_int64 (pos 5)) (refl, ((refl, tt), ((refl, tt), tt)))
      (refl, (refl, (refl, tt))) refl
