-- ===== src/Ql/Eval.antt =====
-- ql_eval and its helpers in src/ql/ql_exec.cpp.
pub mod Env
pub mod Stored
use sqldb.Base.{
  ℕ, zero, suc, compare, Ordering, Bool, true, false, ◌&&◌, ◌||◌, not as not_bool, List, [], ◌∷◌,
  ◌++◌, ℤ, pos, negsuc, lex, text, if◌then◌else◌, Result, ok, stop, failed, asserted, ◌>>=◌, ◌>>◌,
  ensure, or_stop,
}
use sqldb.Catalog.Value.{Value, ValueType, int_64, bytes, error, make_int64, type_eq, int_eq}
use sqldb.Catalog.Record
use sqldb.Catalog.Record.{Record}
use sqldb.Encoding.Order.{int_order}
use sqldb.Ql.Ast.{
  QlNodeType, uninit, i64, str, sym, star, tup, ge, gt, lt, le, eq, ne, add, sub, mul, div, modulo,
  and, or, not, neg, QlNode, QlNodes, node, nil, cons,
}
use sqldb.Ql.Arith.{arithmetic}

abbrev pub is_int : Value → Bool
is_int v = type_eq v.type int_64

unfoldable pub make_bool : Bool → Value
make_bool b = make_int64 (if b then pos 1 else pos 0)

-- compare: the int that it sets is the ordering.
unfoldable pub compare_values : Value → Value → Result Ordering
compare_values lhs rhs =
    if not_bool (type_eq lhs.type rhs.type)
    then stop (failed (text "cannot compare a number with a string"))
    else ok (if is_int lhs then int_order lhs.int64 rhs.int64 else lex lhs.str rhs.str)

unfoldable pub cmp_holds : QlNodeType → Ordering → Bool
cmp_holds eq c = elim c [ Ordering.eq ↦ true | _ ↦ false ]
cmp_holds ne c = elim c [ Ordering.eq ↦ false | _ ↦ true ]
cmp_holds lt c = elim c [ Ordering.lt ↦ true | _ ↦ false ]
cmp_holds le c = elim c [ Ordering.gt ↦ false | _ ↦ true ]
cmp_holds gt c = elim c [ Ordering.gt ↦ true | _ ↦ false ]
cmp_holds _ c = elim c [ Ordering.lt ↦ false | _ ↦ true ]

-- node.kids[i], evaluated. A vector read out of range is undefined, and stops here.
unfoldable pub kid : List (Result Value) → ℕ → Result Value
kid [] i = stop asserted
kid (r ∷ rs) zero = r
kid (r ∷ rs) (suc i) = kid rs i

-- eval_kids
abbrev pub both_kids : List (Result Value) → Result (Value × Value)
both_kids kids = do a ← kid kids 0; b ← kid kids 1; ok (a, b)

abbrev pub is_nonzero : Value → Bool
is_nonzero v = not_bool (int_eq v.int64 (pos 0))

abbrev pub logic_name : QlNodeType → List ℕ
logic_name and = text "AND"
logic_name _ = text "OR"

unfoldable pub eval_logic : QlNodeType → Bool → Bool → Bool
eval_logic and lhs rhs = lhs && rhs
eval_logic _ lhs rhs = lhs || rhs

unfoldable pub eval_and_or : QlNodeType → List (Result Value) → Result Value
unfolding eval_logic
eval_and_or t kids = do
  (a, b) ← both_kids kids
  ensure (is_int a && is_int b) (failed (logic_name t ++ text " needs booleans"))
  ok (make_bool (eval_logic t (is_nonzero a) (is_nonzero b)))

unfoldable pub eval_compare : QlNodeType → List (Result Value) → Result Value
eval_compare t kids = do
  (a, b) ← both_kids kids
  c ← compare_values a b
  ok (make_bool (cmp_holds t c))

unfoldable pub eval_arith : QlNodeType → List (Result Value) → Result Value
eval_arith t kids = do
  (a, b) ← both_kids kids
  ensure (is_int a && is_int b) (failed (text "arithmetic needs numbers"))
  r ← arithmetic t a.int64 b.int64
  ok (make_int64 r)

unfoldable pub eval_neg : List (Result Value) → Result Value
eval_neg kids = do
  v ← kid kids 0
  ensure (is_int v) (failed (text "unary minus needs a number"))
  r ← arithmetic sub (pos 0) v.int64
  ok (make_int64 r)

unfoldable pub eval_not : List (Result Value) → Result Value
eval_not kids = do
  v ← kid kids 0
  ensure (is_int v) (failed (text "NOT needs a boolean"))
  ok (make_bool (int_eq v.int64 (pos 0)))

-- The switch of ql_eval, over the node's payload and the results of its kids.
unfoldable pub eval_node : QlNodeType → Value → List (Result Value) → Record → Result Value
eval_node i64 v kids env = ok v
eval_node str v kids env = ok v
eval_node sym v kids env =
    or_stop (Record.get env v.str) (failed (text "unknown column: " ++ v.str))
eval_node neg v kids env = eval_neg kids
eval_node not v kids env = eval_not kids
eval_node and v kids env = eval_and_or and kids
eval_node or v kids env = eval_and_or or kids
eval_node eq v kids env = eval_compare eq kids
eval_node ne v kids env = eval_compare ne kids
eval_node lt v kids env = eval_compare lt kids
eval_node le v kids env = eval_compare le kids
eval_node gt v kids env = eval_compare gt kids
eval_node ge v kids env = eval_compare ge kids
eval_node add v kids env = eval_arith add kids
eval_node sub v kids env = eval_arith sub kids
eval_node mul v kids env = eval_arith mul kids
eval_node div v kids env = eval_arith div kids
eval_node modulo v kids env = eval_arith modulo kids
eval_node tup v kids env = stop (failed (text "a tuple is not a value"))
eval_node star v kids env = stop (failed (text "* is only valid in a SELECT list"))
eval_node uninit v kids env = stop (failed (text "empty expression"))

unfoldable mutual
  pub ql_eval : QlNode → Record → Result Value
  ql_eval (node t v kids) env = eval_node t v (eval_all kids env) env

  pub eval_all : QlNodes → Record → List (Result Value)
  eval_all nil env = []
  eval_all (cons k ks) env = ql_eval k env ∷ eval_all ks env
