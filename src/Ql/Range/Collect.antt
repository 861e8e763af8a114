-- ===== src/Ql/Range/Collect.antt =====
-- A row that the filter keeps lies within every bound that collect takes from the filter.
use sqldb.Base.{
  ◌≡◌, refl, Ordering, true, List, ◌∷◌, some, Bytes, inl, inr, Bool-cases, Option-cases,
  if◌then◌else◌, Result, ok, Result-cases, get_elem?, >>=-eq-ok, arith, subst, ℕ, ℤ, swap_order,
  lex_swap,
}
use sqldb.Catalog.Value.{Value, ValueType, make_int64, int_64, type_eq}
use sqldb.Catalog.Record.{Record, empty, get}
use sqldb.Catalog.TableDef.{TableDef}
use sqldb.Catalog.Schema.{col_index}
use sqldb.Encoding.Order.{int_order}
use sqldb.Ql.Ast.{
  QlNodeType, sym as sym_tag, ge, gt, lt, le, eq, and, QlNode, QlNodes, node, cons, payload,
}
use sqldb.Ql.Eval.{
  ql_eval, eval_all, eval_node, eval_and_or, eval_compare, eval_logic, kid, both_kids,
  compare_values, cmp_holds, make_bool, is_nonzero,
}
use sqldb.Ql.Eval.Env.{ql_eval-empty}
use sqldb.Ql.Range.{
  Bounds, is_sym, flip, is_comparison, constant_bound, collect_sym, collect_comparison, collect,
}
use sqldb.Ql.Range.Bound.{Passes, Holds, add_bound-Holds}

-- The filter evaluates to a number other than 0: the scan keeps the row.
abbrev pub Keeps : QlNode → Record → Type 0
Keeps filter row =
    (v : Value) × (ql_eval filter row ≡ ok v) × (v.type ≡ int_64) × (is_nonzero v ≡ true)

int_order_swap : (a b : ℤ) → int_order b a ≡ swap_order (int_order a b)
int_order_swap a b = ground arith

type_eq_comm : (s t : ValueType) → type_eq t s ≡ type_eq s t
type_eq_comm s t = ground arith

type_eq→eq : (s t : ValueType) → type_eq s t ≡ true → s ≡ t
type_eq→eq s t h = ground arith

compare_values_swap :
    (v w : Value) (o : Ordering)
    → compare_values v w ≡ ok o
    → compare_values w v ≡ ok (swap_order o)
unfolding compare_values
compare_values_swap v w o h = ground (
  arith,
  type_eq_comm v.type w.type,
  type_eq→eq v.type w.type,
  int_order_swap v.int64 w.int64,
  lex_swap v.str w.str,
)

Passes-flip :
    (op : QlNodeType) (v w : Value) → is_comparison op ≡ true → Passes op v w → Passes (flip op) w v
unfolding flip is_comparison cmp_holds
Passes-flip eq v w c (o, e, h) = (swap_order o, compare_values_swap v w o e, ground arith)
Passes-flip lt v w c (o, e, h) = (swap_order o, compare_values_swap v w o e, ground arith)
Passes-flip le v w c (o, e, h) = (swap_order o, compare_values_swap v w o e, ground arith)
Passes-flip gt v w c (o, e, h) = (swap_order o, compare_values_swap v w o e, ground arith)
Passes-flip ge v w c (o, e, h) = (swap_order o, compare_values_swap v w o e, ground arith)
Passes-flip _ v w c p = cc

-- What a comparison node evaluates.
eval_node-comparison :
    (op : QlNodeType) (v : Value) (kids : List (Result Value)) (row : Record)
    → is_comparison op ≡ true
    → eval_node op v kids row ≡ eval_compare op kids
unfolding is_comparison eval_node
eval_node-comparison eq v kids row c = refl
eval_node-comparison lt v kids row c = refl
eval_node-comparison le v kids row c = refl
eval_node-comparison gt v kids row c = refl
eval_node-comparison ge v kids row c = refl
eval_node-comparison _ v kids row c = cc

-- A comparison that keeps the row compares two values, and they pass.
Keeps-Passes :
    (op : QlNodeType) (v : Value) (lhs rhs : QlNode) (kids : QlNodes) (row : Record)
    → is_comparison op ≡ true
    → Keeps (node op v (cons lhs (cons rhs kids))) row
    → (a : Value) × (b : Value) × (ql_eval lhs row ≡ ok a)
      × (ql_eval rhs row ≡ ok b)
      × Passes op a b
unfolding ql_eval eval_all eval_compare kid make_bool make_int64
Keeps-Passes op v lhs rhs kids row c (r, e, t, n) =
    let e' =
      rw (eval_node-comparison op v (ql_eval lhs row ∷ ql_eval rhs row ∷ eval_all kids row) row c)
        at e in
    let (p, f, g) =
      >>=-eq-ok (both_kids (ql_eval lhs row ∷ ql_eval rhs row ∷ eval_all kids row)) _ e' in
    let (a, f1, f2) = >>=-eq-ok (ql_eval lhs row) _ f in
    let (b, f3, f4) = >>=-eq-ok (ql_eval rhs row) _ f2 in
    let (o, g1, g2) = >>=-eq-ok (compare_values p.0 p.1) _ g in
    (a, b, f1, f3, (o, ground arith, ground arith))

-- A conjunction that keeps the row has two sides that keep it.
Keeps-and :
    (v : Value) (lhs rhs : QlNode) (kids : QlNodes) (row : Record)
    → Keeps (node and v (cons lhs (cons rhs kids))) row
    → Keeps lhs row × Keeps rhs row
unfolding ql_eval eval_all eval_node eval_and_or eval_logic kid make_bool make_int64
Keeps-and v lhs rhs kids row (r, e, t, n) =
    let (p, f, g) =
      >>=-eq-ok (both_kids (ql_eval lhs row ∷ ql_eval rhs row ∷ eval_all kids row)) _ e in
    let (a, f1, f2) = >>=-eq-ok (ql_eval lhs row) _ f in
    let (b, f3, f4) = >>=-eq-ok (ql_eval rhs row) _ f2 in
    ((a, f1, ground arith, ground arith), (b, f3, ground arith, ground arith))

-- A tag for which is_comparison holds keeps it when its sides are swapped.
sym_value :
    (n : QlNode) (row : Record) (v : Value)
    → is_sym n ≡ true
    → ql_eval n row ≡ ok v
    → get row (payload n).str ≡ some v
unfolding ql_eval eval_node
sym_value (node sym_tag s kids) row v h e = ground arith
sym_value (node _ s kids) row v h e = cc

-- A bound by a constant that the row's value passes.
constant_bound-Holds :
    (op : QlNodeType) (col : Bytes) (val : QlNode) (at : ℕ) (d : TableDef) (row : Record)
    (v w : Value) (bounds : Bounds)
    → get row col ≡ some v
    → ql_eval val row ≡ ok w
    → Passes op v w
    → Holds row bounds
    → Holds row (constant_bound op col val at d bounds)
unfolding constant_bound
constant_bound-Holds op col val at d row v w bounds g e p h =
    elim (Result-cases (ql_eval val empty)) [
      | inl (x, f) ↦
          let same : w ≡ x = cc (e, ql_eval-empty val row x f) in
          let added = add_bound-Holds row op col v x bounds g (subst (Passes op v) same p) h in
          elim (Option-cases (get_elem? d.types at)) [
            | inl none_there ↦ rw (f, none_there, constant_bound) h
            | inr (t, there) ↦ elim (Bool-cases (type_eq x.type t)) [
              | inl hit ↦ rw (f, there, hit, constant_bound) added
              | inr miss ↦ rw (f, there, miss, constant_bound) h
            ]
          ]
      | inr (x, f) ↦ rw (f, constant_bound) h
    ]

collect_sym-Holds :
    (op : QlNodeType) (n val : QlNode) (d : TableDef) (row : Record) (v w : Value) (bounds : Bounds)
    → is_sym n ≡ true
    → ql_eval n row ≡ ok v
    → ql_eval val row ≡ ok w
    → Passes op v w
    → Holds row bounds
    → Holds row (collect_sym op n val d bounds)
unfolding collect_sym
collect_sym-Holds op (node t s kids) val d row v w bounds is f e p h =
    let g = sym_value (node t s kids) row v is f in
    elim (Option-cases (col_index d s.str)) [
      | inl unknown ↦ rw (unknown, collect_sym) h
      | inr (at, known) ↦
          rw (known, collect_sym) (constant_bound-Holds op s.str val at d row v w bounds g e p h)
    ]

collect_comparison-Holds :
    (op : QlNodeType) (lhs rhs : QlNode) (d : TableDef) (row : Record) (a b : Value)
    (bounds : Bounds)
    → is_comparison op ≡ true
    → ql_eval lhs row ≡ ok a
    → ql_eval rhs row ≡ ok b
    → Passes op a b
    → Holds row bounds
    → Holds row (collect_comparison op lhs rhs d bounds)
unfolding collect_comparison
collect_comparison-Holds op lhs rhs d row a b bounds c e f p h = elim (Bool-cases (is_sym lhs)) [
  | inl left ↦ rw left (collect_sym-Holds op lhs rhs d row a b bounds left e f p h)
  | inr other ↦ elim (Bool-cases (is_sym rhs)) [
    | inl right ↦
        rw (other, right)
          (collect_sym-Holds (flip op) rhs lhs d row b a bounds right f e (Passes-flip op a b c p)
            h)
    | inr neither ↦ rw (other, neither) h
  ]
]

compared-Holds :
    (t : QlNodeType) (v : Value) (lhs rhs : QlNode) (kids : QlNodes) (d : TableDef) (row : Record)
    (bounds : Bounds)
    → Keeps (node t v (cons lhs (cons rhs kids))) row
    → Holds row bounds
    → Holds row (if is_comparison t then collect_comparison t lhs rhs d bounds else bounds)
compared-Holds t v lhs rhs kids d row bounds k h = elim (Bool-cases (is_comparison t)) [
  | inl c ↦
      let (a, b, e, f, p) = Keeps-Passes t v lhs rhs kids row c k in
      rw c (collect_comparison-Holds t lhs rhs d row a b bounds c e f p h)
  | inr other ↦ rw other h
]

-- A row that the filter keeps lies within the bounds that collect adds, as within those before.
pub collect-Holds :
    (n : QlNode) (d : TableDef) (row : Record) (bounds : Bounds)
    → Keeps n row
    → Holds row bounds
    → Holds row (collect n d bounds)
unfolding collect
collect-Holds (node and v (cons lhs (cons rhs kids))) d row bounds k h =
    let (l, r) = Keeps-and v lhs rhs kids row k in
    collect-Holds rhs d row (collect lhs d bounds) r (collect-Holds lhs d row bounds l h)
collect-Holds (node t v (cons lhs (cons rhs kids))) d row bounds k h =
    compared-Holds t v lhs rhs kids d row bounds k h
collect-Holds _ d row bounds k h = h
