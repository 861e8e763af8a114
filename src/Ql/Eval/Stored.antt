-- ===== src/Ql/Eval/Stored.antt =====
-- The integers that ql_eval computes fit int64_t: the model's integers are the code's.
use sqldb.Base.{
  ℕ, zero, suc, ◌≡◌, refl, Bool, true, ◌&&◌, List, [], ◌∷◌, some, pos, Result, ok, stop, ensure,
  ok-injective, subst, All, ◌>>=◌, arith, Bytes,
}
use sqldb.Catalog.Value.{Value, make_int64, int_eq}
use sqldb.Catalog.Record.{Record, find_value, get}
use sqldb.Ql.Ast.{
  QlNodeType, uninit, i64, str, sym, star, tup, ge, gt, lt, le, eq, ne, add, sub, mul, div, modulo,
  and, or, not, neg, QlNode, QlNodes, node, nil, cons,
}
use sqldb.Ql.Arith.{fits, arithmetic}
use sqldb.Ql.Eval.{
  eval_node, ql_eval, eval_all, kid, both_kids, is_int, compare_values, make_bool, eval_neg,
  eval_not, eval_and_or, eval_compare, eval_arith,
}
use sqldb.Ql.Arith.Exact.{arithmetic-fits}

abbrev pub Fits : Value → Type 0
Fits v = fits v.int64 ≡ true

-- The numbers that the parser puts into an expression fit int64_t.
unfoldable mutual
  pub LiteralsFit : QlNode → Type 0
  LiteralsFit (node t v kids) = Fits v × AllLiteralsFit kids

  pub AllLiteralsFit : QlNodes → Type 0
  AllLiteralsFit nil = Unit
  AllLiteralsFit (cons k ks) = LiteralsFit k × AllLiteralsFit ks

abbrev pub ResultFits : Result Value → Type 0
ResultFits r = (v : Value) → r ≡ ok v → Fits v

ok-ResultFits : (v : Value) → Fits v → ResultFits (ok v)
ok-ResultFits v h w e = subst Fits (ok-injective e) h

>>=-ResultFits :
    {A : Type 0} (m : Result A) (f : A → Result Value)
    → ((a : A) → m ≡ ok a → ResultFits (f a))
    → ResultFits (m >>= f)
>>=-ResultFits (ok a) f h = h a refl
>>=-ResultFits (stop e) f h = λ v eq. ground arith

make_bool-Fits : (b : Bool) → Fits (make_bool b)
unfolding make_bool make_int64
make_bool-Fits b = ground arith

kid-fits : (rs : List (Result Value)) (i : ℕ) → All ResultFits rs → ResultFits (kid rs i)
unfolding kid
kid-fits [] i h = λ v e. ground arith
kid-fits (r ∷ rs) zero (h, hs) = h
kid-fits (r ∷ rs) (suc i) (h, hs) = kid-fits rs i hs

find_value-Fits :
    (cols : List Bytes) (vals : List Value) (col : Bytes) (v : Value)
    → All Fits vals
    → find_value cols vals col ≡ some v
    → Fits v
unfolding find_value
find_value-Fits [] vals col v h e = ground arith
find_value-Fits (c ∷ cols) [] col v h e = ground arith
find_value-Fits (c ∷ cols) (w ∷ vals) col v (h, hs) e =
    ground (arith, h, find_value-Fits cols vals col v hs)

both_kids-fst :
    (rs : List (Result Value)) (a b : Value) → both_kids rs ≡ ok (a, b) → kid rs 0 ≡ ok a
both_kids-fst rs a b e = ground arith

eval_arith-fits :
    (t : QlNodeType) (rs : List (Result Value)) → All ResultFits rs → ResultFits (eval_arith t rs)
unfolding eval_arith make_int64
eval_arith-fits t rs h = >>=-ResultFits (both_kids rs) _ λ (a, b) eab.
    >>=-ResultFits (ensure (is_int a && is_int b) _) _ λ _ _.
      >>=-ResultFits (arithmetic t a.int64 b.int64) _ λ r er.
        ok-ResultFits (make_int64 r)
          (arithmetic-fits t a.int64 b.int64 r (kid-fits rs 0 h a (both_kids-fst rs a b eab)) er)

eval_neg-fits : (rs : List (Result Value)) → All ResultFits rs → ResultFits (eval_neg rs)
unfolding eval_neg make_int64
eval_neg-fits rs h = >>=-ResultFits (kid rs 0) _ λ v ev.
    >>=-ResultFits (ensure (is_int v) _) _ λ _ _.
      >>=-ResultFits (arithmetic sub (pos 0) v.int64) _ λ r er.
        ok-ResultFits (make_int64 r) (arithmetic-fits sub (pos 0) v.int64 r (ground arith) er)

eval_not-fits : (rs : List (Result Value)) → ResultFits (eval_not rs)
unfolding eval_not
eval_not-fits rs = >>=-ResultFits (kid rs 0) _ λ v _. >>=-ResultFits (ensure (is_int v) _) _ λ _ _.
    ok-ResultFits (make_bool (int_eq v.int64 (pos 0))) (make_bool-Fits (int_eq v.int64 (pos 0)))

eval_and_or-fits : (t : QlNodeType) (rs : List (Result Value)) → ResultFits (eval_and_or t rs)
unfolding eval_and_or
eval_and_or-fits t rs = >>=-ResultFits (both_kids rs) _ λ (a, b) _.
    >>=-ResultFits (ensure (is_int a && is_int b) _) _ λ _ _. ok-ResultFits _ (make_bool-Fits _)

eval_compare-fits : (t : QlNodeType) (rs : List (Result Value)) → ResultFits (eval_compare t rs)
unfolding eval_compare
eval_compare-fits t rs =
    >>=-ResultFits (both_kids rs) _
      λ (a, b) _. >>=-ResultFits (compare_values a b) _ λ c _. ok-ResultFits _ (make_bool-Fits _)

eval_node-Fits :
    (t : QlNodeType) (v : Value) (rs : List (Result Value)) (env : Record)
    → Fits v
    → All ResultFits rs
    → All Fits env.vals
    → ResultFits (eval_node t v rs env)
unfolding eval_node get
eval_node-Fits i64 v rs env h hs he = ok-ResultFits v h
eval_node-Fits str v rs env h hs he = ok-ResultFits v h
eval_node-Fits sym v rs env h hs he =
    λ w e. find_value-Fits env.cols env.vals v.str w he (ground arith)
eval_node-Fits neg v rs env h hs he = eval_neg-fits rs hs
eval_node-Fits not v rs env h hs he = eval_not-fits rs
eval_node-Fits and v rs env h hs he = eval_and_or-fits and rs
eval_node-Fits or v rs env h hs he = eval_and_or-fits or rs
eval_node-Fits eq v rs env h hs he = eval_compare-fits eq rs
eval_node-Fits ne v rs env h hs he = eval_compare-fits ne rs
eval_node-Fits lt v rs env h hs he = eval_compare-fits lt rs
eval_node-Fits le v rs env h hs he = eval_compare-fits le rs
eval_node-Fits gt v rs env h hs he = eval_compare-fits gt rs
eval_node-Fits ge v rs env h hs he = eval_compare-fits ge rs
eval_node-Fits add v rs env h hs he = eval_arith-fits add rs hs
eval_node-Fits sub v rs env h hs he = eval_arith-fits sub rs hs
eval_node-Fits mul v rs env h hs he = eval_arith-fits mul rs hs
eval_node-Fits div v rs env h hs he = eval_arith-fits div rs hs
eval_node-Fits modulo v rs env h hs he = eval_arith-fits modulo rs hs
eval_node-Fits tup v rs env h hs he = λ w e. ground arith
eval_node-Fits star v rs env h hs he = λ w e. ground arith
eval_node-Fits uninit v rs env h hs he = λ w e. ground arith

mutual
  unfolding ql_eval eval_all LiteralsFit AllLiteralsFit

  eval-Fits :
      (n : QlNode) (env : Record) → LiteralsFit n → All Fits env.vals → ResultFits (ql_eval n env)
  eval-Fits (node t v kids) env (h, hs) he =
      eval_node-Fits t v (eval_all kids env) env h (eval_all-Fits kids env hs he) he

  eval_all-Fits :
      (ns : QlNodes) (env : Record)
      → AllLiteralsFit ns
      → All Fits env.vals
      → All ResultFits (eval_all ns env)
  eval_all-Fits nil env h he = tt
  eval_all-Fits (cons n ns) env (h, hs) he = (eval-Fits n env h he, eval_all-Fits ns env hs he)

-- Where the literals of an expression and the row's numbers fit int64_t, the number that ql_eval
-- returns does.
pub ql_eval-fits :
    (n : QlNode) (env : Record) (v : Value)
    → LiteralsFit n
    → All Fits env.vals
    → ql_eval n env ≡ ok v
    → fits v.int64 ≡ true
ql_eval-fits n env v h he e = eval-Fits n env h he v e
