-- ===== src/Ql/Range/Sound.antt =====
-- ql_range is never narrower than the filter: a row that the filter keeps lies in the range.
use sqldb.Base.{
  ◌≡◌, refl, sym, Ordering, Bool, true, false, List, [], ◌∷◌, ◌++◌, some, Bytes, inl, inr,
  Bool-cases, Option-cases, if◌then◌else◌, Result, ok, stop, absent, ◌>>=◌, or_stop, arith, subst,
  ltb, if-elim, not as not_bool, ◌&&◌, ◌==◌, then_by,
}
use sqldb.Catalog.Value.{Value}
use sqldb.Catalog.Record.{Record, empty, get}
use sqldb.Catalog.TableDef.{TableDef}
use sqldb.Catalog.Schema.{is_nonempty}
use sqldb.Storage.Cmp.{Cmp, cmp_ge, cmp_gt, cmp_lt, cmp_le, order_ok}
use sqldb.Ql.Ast.{uninit, QlNode, node, gt, ge, lt, le, eq}
use sqldb.Ql.Eval.{compare_values, cmp_holds}
use sqldb.Ql.Range.{
  ColBound, Bounds, find, collect, score, fit_cols, bound_eq, bound_range, bound_at, Best, better,
  choose, QlRange, full_range, push, push_range, push_keys, range_of_best, range_of_bounds,
  ql_range,
}
use sqldb.Ql.Range.Bound.{Within, Holds, find-Holds}
use sqldb.Ql.Range.Collect.{Keeps, collect-Holds}

-- How a row compares with a key, column by column of the key.
unfoldable pub row_order : Record → List Bytes → List Value → Result Ordering
row_order row [] [] = ok Ordering.eq
row_order row [] (w ∷ vals) = stop absent
row_order row (c ∷ cols) [] = stop absent
row_order row (c ∷ cols) (w ∷ vals) = do
  v ← or_stop (get row c) absent
  o ← compare_values v w
  later ← row_order row cols vals
  ok (then_by o later)

-- The row stands on the side of the key that `cmp` names.
abbrev pub InRange : Record → Cmp → Record → Type 0
InRange row cmp key =
    (o : Ordering) × (row_order row key.cols key.vals ≡ ok o) × (order_ok cmp o ≡ true)

row_order-push :
    (row : Record) (cols : List Bytes) (vals : List Value) (c : Bytes) (v w : Value) (o : Ordering)
    → row_order row cols vals ≡ ok Ordering.eq
    → get row c ≡ some v
    → compare_values v w ≡ ok o
    → row_order row (cols ++ c ∷ []) (vals ++ w ∷ []) ≡ ok o
unfolding row_order
row_order-push row [] [] c v w o h g e = rw (g, e) (ground arith)
row_order-push row [] (x ∷ vals) c v w o h g e = cc
row_order-push row (b ∷ cols) [] c v w o h g e = cc
row_order-push row (b ∷ cols) (x ∷ vals) c v w o h g e =
    ground (arith, row_order-push row cols vals c v w o)

-- Both keys of a range under construction agree with the row, and its bounds are closed.
record Agrees (row : Record) (r : QlRange) : Type 0 where
  low : row_order row r.key1.cols r.key1.vals ≡ ok Ordering.eq
  high : row_order row r.key2.cols r.key2.vals ≡ ok Ordering.eq
  closed1 : r.cmp1 ≡ cmp_ge
  closed2 : r.cmp2 ≡ cmp_le

abbrev pub Contains : QlRange → Record → Type 0
Contains r row = InRange row r.cmp1 r.key1 × InRange row r.cmp2 r.key2

Agrees-Contains : (row : Record) (r : QlRange) → Agrees row r → Contains r row
Agrees-Contains row r a = ((Ordering.eq, a.low, rw a.closed1), (Ordering.eq, a.high, rw a.closed2))

order_ok-cmp_holds_lo :
    (open' : Bool) (o : Ordering)
    → cmp_holds (if open' then gt else ge) o ≡ true
    → order_ok (if open' then cmp_gt else cmp_ge) o ≡ true
unfolding cmp_holds
order_ok-cmp_holds_lo true o h = ground arith
order_ok-cmp_holds_lo false o h = ground arith

order_ok-cmp_holds_hi :
    (open' : Bool) (o : Ordering)
    → cmp_holds (if open' then lt else le) o ≡ true
    → order_ok (if open' then cmp_lt else cmp_le) o ≡ true
unfolding cmp_holds
order_ok-cmp_holds_hi true o h = ground arith
order_ok-cmp_holds_hi false o h = ground arith

push_range-Contains :
    (row : Record) (r : QlRange) (c : Bytes) (b : ColBound)
    → Agrees row r
    → Within row c b
    → Contains (push_range c b r) row
unfolding push_range
push_range-Contains row r c b a (v, g, m) = (lower, upper)
  where
    lower : InRange row (push_range c b r).cmp1 (push_range c b r).key1
    lower = elim (Bool-cases b.has_lo) [
      | inl has ↦
          let (o, e, h) = m.lo_met has in
          simp has (
            o,
            row_order-push row r.key1.cols r.key1.vals c v b.lo o a.low g e,
            order_ok-cmp_holds_lo b.lo_open o h,
          )
      | inr has ↦ simp has (Agrees-Contains row r a).0
    ]

    upper : InRange row (push_range c b r).cmp2 (push_range c b r).key2
    upper = elim (Bool-cases b.has_hi) [
      | inl has ↦
          let (o, e, h) = m.hi_met has in
          simp has (
            o,
            row_order-push row r.key2.cols r.key2.vals c v b.hi o a.high g e,
            order_ok-cmp_holds_hi b.hi_open o h,
          )
      | inr has ↦ simp has (Agrees-Contains row r a).1
    ]

cmp_holds-eq : (o : Ordering) → cmp_holds eq o ≡ true → o ≡ Ordering.eq
unfolding cmp_holds
cmp_holds-eq o h = ground arith

-- A column with a bound: the bound that bound_at reads.
bound_at-Within :
    (row : Record) (c : Bytes) (bounds : Bounds) (b : ColBound)
    → find c bounds ≡ some b
    → Holds row bounds
    → Within row c (bound_at c bounds)
bound_at-Within row c bounds b e h =
    let bound : bound_at c bounds ≡ b = rw (e, bound_at) in
    subst (Within row c) (sym bound) (find-Holds row c b bounds e h)

push_eq-Agrees :
    (row : Record) (r : QlRange) (c : Bytes) (b : ColBound)
    → b.has_eq ≡ true
    → Within row c b
    → Agrees row r
    → Agrees row (record r { key1 = push c b.eq_val r.key1; key2 = push c b.eq_val r.key2 })
push_eq-Agrees row r c b has (v, g, m) a =
    let (o, e, h) = m.eq_met has in
    let same : o ≡ Ordering.eq = cmp_holds-eq o h in
    let e' : compare_values v b.eq_val ≡ ok Ordering.eq = rw same at e in
    record {
      low = row_order-push row r.key1.cols r.key1.vals c v b.eq_val Ordering.eq a.low g e';
      high = row_order-push row r.key2.cols r.key2.vals c v b.eq_val Ordering.eq a.high g e';
      closed1 = a.closed1;
      closed2 = a.closed2;
    }

-- What a column of the key finds in the bounds.
bound_eq-found :
    (c : Bytes) (bounds : Bounds)
    → bound_eq (find c bounds) ≡ true
    → (b : ColBound) × (find c bounds ≡ some b) × (b.has_eq ≡ true)
bound_eq-found c bounds h = elim (Option-cases (find c bounds)) [
  | inl e ↦ cc (rw e at h)
  | inr (b, e) ↦ (b, e, rw e at h)
]

bound_range-found :
    (c : Bytes) (bounds : Bounds)
    → bound_range (find c bounds) ≡ true
    → (b : ColBound) × (find c bounds ≡ some b)
bound_range-found c bounds h = elim (Option-cases (find c bounds)) [
  | inl e ↦ cc (rw e at h)
  | inr (b, e) ↦ (b, e)
]

push_keys-Contains :
    (row : Record) (cols : List Bytes) (bounds : Bounds) (r : QlRange)
    → Holds row bounds
    → Agrees row r
    → Contains (push_keys (fit_cols cols bounds) cols bounds r) row
unfolding push_keys fit_cols
push_keys-Contains row [] bounds r h a = Agrees-Contains row r a
push_keys-Contains row (c ∷ cols) bounds r h a = elim (Bool-cases (bound_eq (find c bounds))) [
  | inl has ↦
      let (b, e, f) = bound_eq-found c bounds has in
      let bound : bound_at c bounds ≡ b = rw (e, bound_at) in
      rw has (
        push_keys-Contains row cols bounds _ h (
          push_eq-Agrees row r c (bound_at c bounds) (rw bound f)
            (bound_at-Within row c bounds b e h) a))
  | inr none_there ↦ elim (Bool-cases (bound_range (find c bounds))) [
    | inl has ↦
        let (b, e) = bound_range-found c bounds has in
        rw (none_there, has)
          (push_range-Contains row r c (bound_at c bounds) a (bound_at-Within row c bounds b e h))
    | inr nothing ↦ rw (none_there, nothing) (Agrees-Contains row r a)
  ]
]

full_range-Agrees : (row : Record) → Agrees row full_range
unfolding row_order empty
full_range-Agrees row = record { low = refl; high = refl; closed1 = refl; closed2 = refl }

better-fit :
    (index : List Bytes) (bounds : Bounds) (best : Best)
    → best.fit ≡ fit_cols best.cols bounds
    → (better index bounds best).fit ≡ fit_cols (better index bounds best).cols bounds
unfolding better
better-fit index bounds best h =
    elim (Bool-cases (ltb (score best.fit) (score (fit_cols index bounds)))) [
      | inl new ↦ rw new refl
      | inr old ↦ simp old h
    ]

choose-fit :
    (indexes : List (List Bytes)) (bounds : Bounds) (best : Best)
    → best.fit ≡ fit_cols best.cols bounds
    → (choose indexes bounds best).fit ≡ fit_cols (choose indexes bounds best).cols bounds
unfolding choose
choose-fit [] bounds best h = h
choose-fit (index ∷ indexes) bounds best h =
    choose-fit indexes bounds _ (better-fit index bounds best h)

range_of_best-Contains :
    (row : Record) (best : Best) (bounds : Bounds)
    → best.fit ≡ fit_cols best.cols bounds
    → Holds row bounds
    → Contains (range_of_best best bounds) row
unfolding range_of_best
range_of_best-Contains row best bounds e h =
    let whole = Agrees-Contains row full_range (full_range-Agrees row) in
    let keys = push_keys-Contains row best.cols bounds full_range h (full_range-Agrees row) in
    let out = push_keys best.fit best.cols bounds full_range in
    let found : Contains out row =
      subst (λ f. Contains (push_keys f best.cols bounds full_range) row) (sym e) keys in
    if-elim (λ r. Contains r row) (score best.fit == 0) whole
      (if-elim (λ r. Contains r row) (not_bool (is_nonempty out.key1.cols) && not_bool best.is_pk)
        whole found)

range_of_bounds-Contains :
    (row : Record) (bounds : Bounds) (d : TableDef)
    → Holds row bounds
    → Contains (range_of_bounds bounds d) row
unfolding range_of_bounds
range_of_bounds-Contains row bounds d h =
    if-elim (λ r. Contains r row) (is_nonempty bounds)
      (range_of_best-Contains row (choose d.indexes bounds _) bounds
        (choose-fit d.indexes bounds _ refl) h)
      (Agrees-Contains row full_range (full_range-Agrees row))

-- Every row that the filter keeps lies in the range that ql_range takes from the filter: on or past
-- key1 as cmp1 says, and on or before key2 as cmp2 says.
pub ql_range-Contains :
    (filter : QlNode) (d : TableDef) (row : Record)
    → Keeps filter row
    → Contains (ql_range filter d) row
unfolding ql_range
ql_range-Contains (node uninit v kids) d row k =
    Agrees-Contains row full_range (full_range-Agrees row)
ql_range-Contains (node t v kids) d row k =
    range_of_bounds-Contains row (collect (node t v kids) d []) d
      (collect-Holds (node t v kids) d row [] k tt)
