-- ===== src/Ql/Range.antt =====
-- src/ql/ql_range.cpp: the range of one key that a filter allows.
pub mod Collect
pub mod Bound
pub mod Sound
use sqldb.Base.{
  ℕ, zero, suc, ◌+◌, ◌*◌, Ordering, Bool, true, false, ◌&&◌, ◌||◌, not as not_bool, List, [], ◌∷◌,
  ◌++◌, Option, none, some, Bytes, bytes_eq, bytes_less, take, get_elem?, ltb, ◌==◌, if◌then◌else◌,
  ok, stop,
}
use sqldb.Catalog.Value.{Value, error, blank, type_eq}
use sqldb.Catalog.Record.{Record, empty}
use sqldb.Catalog.TableDef.{TableDef, key_cols}
use sqldb.Catalog.Schema.{col_index, is_nonempty}
use sqldb.Encoding.Order.{int_order}
use sqldb.Storage.Cmp.{Cmp, cmp_ge, cmp_gt, cmp_lt, cmp_le}
use sqldb.Ql.Ast.{
  QlNodeType, QlNode, QlNodes, node, nil, cons, tag, uninit, sym, ge, gt, lt, le, eq, and,
}
use sqldb.Ql.Eval.{ql_eval, is_int}

pub record ColBound : Type 0 where
  pub has_eq : Bool
  pub has_lo : Bool
  pub has_hi : Bool
  pub lo_open : Bool
  pub hi_open : Bool
  pub eq_val : Value
  pub lo : Value
  pub hi : Value

abbrev pub no_bound : ColBound
no_bound = record {
  has_eq = false;
  has_lo = false;
  has_hi = false;
  lo_open = false;
  hi_open = false;
  eq_val = blank error;
  lo = blank error;
  hi = blank error;
}

-- std::map<std::string, ColBound>; nothing depends on its order.
abbrev pub Bounds : Type 0
Bounds = List (Bytes × ColBound)

unfoldable pub find : Bytes → Bounds → Option ColBound
find col [] = none
find col ((c, b) ∷ bounds) = let later = find col bounds in if bytes_eq c col then some b else later

-- `ColBound& b = (*out)[col]` and an update of b.
unfoldable pub modify : Bytes → (ColBound → ColBound) → Bounds → Bounds
modify col f [] = (col, f no_bound) ∷ []
modify col f ((c, b) ∷ bounds) =
    let later = modify col f bounds in if bytes_eq c col then (c, f b) ∷ bounds else (c, b) ∷ later

abbrev is_less : Ordering → Bool
is_less Ordering.lt = true
is_less _ = false

unfoldable pub value_less : Value → Value → Bool
value_less a b = if is_int a then is_less (int_order a.int64 b.int64) else bytes_less a.str b.str

unfoldable pub flip : QlNodeType → QlNodeType
flip lt = gt
flip le = ge
flip gt = lt
flip ge = le
flip t = t

unfoldable pub is_comparison : QlNodeType → Bool
is_comparison eq = true
is_comparison lt = true
is_comparison le = true
is_comparison gt = true
is_comparison ge = true
is_comparison _ = false

-- The switch of add_bound.
unfoldable pub tighten_lo : Bool → Value → ColBound → ColBound
tighten_lo open' v b =
    if not_bool b.has_lo || value_less b.lo v
    then record b { has_lo = true; lo_open = open'; lo = v }
    else b

unfoldable pub tighten_hi : Bool → Value → ColBound → ColBound
tighten_hi open' v b =
    if not_bool b.has_hi || value_less v b.hi
    then record b { has_hi = true; hi_open = open'; hi = v }
    else b

unfoldable pub tighten : QlNodeType → Value → ColBound → ColBound
unfolding tighten_lo tighten_hi
tighten eq v b = if b.has_eq then b else record b { has_eq = true; eq_val = v }
tighten gt v b = tighten_lo true v b
tighten ge v b = tighten_lo false v b
tighten lt v b = tighten_hi true v b
tighten le v b = tighten_hi false v b
tighten _ v b = b

unfoldable pub add_bound : QlNodeType → Bytes → Value → Bounds → Bounds
add_bound op col v out = modify col (tighten op v) out

-- `types[at]`: table_def_check has made the vectors parallel.
unfoldable pub constant_bound : QlNodeType → Bytes → QlNode → ℕ → TableDef → Bounds → Bounds
constant_bound op col val at d out = elim (ql_eval val empty) [
  | ok v ↦ elim (get_elem? d.types at) [
    | none ↦ out
    | some t ↦ if type_eq v.type t then add_bound op col v out else out
  ]
  | stop e ↦ out
]

-- The rest of collect, once the column is on the left.
unfoldable pub collect_sym : QlNodeType → QlNode → QlNode → TableDef → Bounds → Bounds
collect_sym op (node t s kids) val d out = elim (col_index d s.str) [
  | none ↦ out
  | some at ↦ constant_bound op s.str val at d out
]

abbrev pub is_sym : QlNode → Bool
is_sym (node sym v kids) = true
is_sym (node t v kids) = false

unfoldable pub collect_comparison : QlNodeType → QlNode → QlNode → TableDef → Bounds → Bounds
collect_comparison op lhs rhs d out =
    if is_sym lhs
    then collect_sym op lhs rhs d out
    else if is_sym rhs
    then collect_sym (flip op) rhs lhs d out
    else out

-- A node of these tags has two kids.
unfoldable pub collect : QlNode → TableDef → Bounds → Bounds
collect (node and v (cons lhs (cons rhs kids))) d out = collect rhs d (collect lhs d out)
collect (node t v (cons lhs (cons rhs kids))) d out =
    if is_comparison t then collect_comparison t lhs rhs d out else out
collect _ d out = out

pub record Fit : Type 0 where
  pub eq_cols : ℕ
  pub range : Bool

unfoldable pub score : Fit → ℕ
score f = f.eq_cols * 2 + (if f.range then 1 else 0)

abbrev pub bound_eq : Option ColBound → Bool
bound_eq none = false
bound_eq (some b) = b.has_eq

abbrev pub bound_range : Option ColBound → Bool
bound_range none = false
bound_range (some b) = b.has_lo || b.has_hi

unfoldable pub fit_cols : List Bytes → Bounds → Fit
fit_cols [] bounds = record { eq_cols = 0; range = false }
fit_cols (c ∷ cols) bounds =
    let rest = fit_cols cols bounds in
    if bound_eq (find c bounds)
    then record { eq_cols = suc rest.eq_cols; range = rest.range }
    else record { eq_cols = 0; range = bound_range (find c bounds) }

pub record Best : Type 0 where
  pub cols : List Bytes
  pub fit : Fit
  pub is_pk : Bool

-- One round of the loop over the indexes: a tie keeps the earlier choice.
unfoldable pub better : List Bytes → Bounds → Best → Best
better index bounds best =
    if ltb (score best.fit) (score (fit_cols index bounds))
    then record { cols = index; fit = fit_cols index bounds; is_pk = false }
    else best

unfoldable pub choose : List (List Bytes) → Bounds → Best → Best
choose [] bounds best = best
choose (index ∷ indexes) bounds best = choose indexes bounds (better index bounds best)

pub record QlRange : Type 0 where
  pub cmp1 : Cmp
  pub cmp2 : Cmp
  pub key1 : Record
  pub key2 : Record

abbrev pub full_range : QlRange
unfolding empty
full_range = record { cmp1 = cmp_ge; cmp2 = cmp_le; key1 = empty; key2 = empty }

-- bounds.at(col), for a column that has a bound.
abbrev pub bound_at : Bytes → Bounds → ColBound
bound_at col bounds = elim (find col bounds) [ none ↦ no_bound | some b ↦ b ]

abbrev pub push : Bytes → Value → Record → Record
push col v r = record { cols = r.cols ++ col ∷ []; vals = r.vals ++ v ∷ [] }

unfoldable pub push_range : Bytes → ColBound → QlRange → QlRange
push_range col b r = record {
  cmp1 = if b.has_lo then (if b.lo_open then cmp_gt else cmp_ge) else r.cmp1;
  cmp2 = if b.has_hi then (if b.hi_open then cmp_lt else cmp_le) else r.cmp2;
  key1 = if b.has_lo then push col b.lo r.key1 else r.key1;
  key2 = if b.has_hi then push col b.hi r.key2 else r.key2;
}

-- The two loops that fill the keys, over the columns of the best key.
unfoldable pub push_keys : Fit → List Bytes → Bounds → QlRange → QlRange
push_keys f [] bounds r = r
push_keys f (c ∷ cols) bounds r = elim f.eq_cols [
  | zero ↦ if f.range then push_range c (bound_at c bounds) r else r
  | suc n ↦
      push_keys (record f { eq_cols = n }) cols bounds
        (record r {
          key1 = push c (bound_at c bounds).eq_val r.key1;
          key2 = push c (bound_at c bounds).eq_val r.key2;
        })
]

unfoldable pub range_of_best : Best → Bounds → QlRange
range_of_best best bounds =
    let out = push_keys best.fit best.cols bounds full_range in
    if score best.fit == 0
    then full_range
    else if not_bool (is_nonempty out.key1.cols) && not_bool best.is_pk
    then full_range
    else out

unfoldable pub range_of_bounds : Bounds → TableDef → QlRange
range_of_bounds bounds d =
    let pk : Best = record {
      cols = key_cols d;
      fit = fit_cols (key_cols d) bounds;
      is_pk = true;
    } in
    if is_nonempty bounds then range_of_best (choose d.indexes bounds pk) bounds else full_range

unfoldable pub ql_range : QlNode → TableDef → QlRange
ql_range (node uninit v kids) d = full_range
ql_range filter d = range_of_bounds (collect filter d []) d
