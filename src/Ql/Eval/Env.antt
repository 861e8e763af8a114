-- ===== src/Ql/Eval/Env.antt =====
-- An expression that evaluates against no row evaluates to the same value against every row.
use sqldb.Base.{ℕ, zero, suc, ◌≡◌, refl, List, [], ◌∷◌, Result, ok, stop, ◌>>=◌}
use sqldb.Catalog.Value.{Value}
use sqldb.Catalog.Record.{Record, empty, get, find_value}
use sqldb.Ql.Ast.{
  QlNodeType, sym, ge, gt, lt, le, eq, ne, add, sub, mul, div, modulo, and, or, not, neg, QlNode,
  QlNodes, node, nil, cons,
}
use sqldb.Ql.Eval.{
  kid, both_kids, eval_and_or, eval_compare, eval_arith, eval_neg, eval_not, eval_node, ql_eval,
  eval_all,
}

-- Whatever `r` returns, `s` returns.
abbrev Below {ℓ} : {A : Type ℓ} → Result A → Result A → Type ℓ
Below {A} r s = (a : A) → r ≡ ok a → s ≡ ok a

AllBelow : List (Result Value) → List (Result Value) → Type 0
AllBelow [] [] = Unit
AllBelow [] (s ∷ ss) = ⊥
AllBelow (r ∷ rs) [] = ⊥
AllBelow (r ∷ rs) (s ∷ ss) = Below r s × AllBelow rs ss

>>=-Below {ℓ κ} :
    {A : Type ℓ} {B : Type κ} (r s : Result A) (f g : A → Result B)
    → Below r s
    → ((a : A) → Below (f a) (g a))
    → Below (r >>= f) (s >>= g)
>>=-Below (ok a) s f g h k b e = rw (h a refl) (k a b e)
>>=-Below (stop x) s f g h k b e = cc

kid-Below : (rs ss : List (Result Value)) (i : ℕ) → AllBelow rs ss → Below (kid rs i) (kid ss i)
unfolding kid AllBelow
kid-Below [] [] i h a e = e
kid-Below [] (s ∷ ss) i h a e = absurd h
kid-Below (r ∷ rs) [] i h a e = absurd h
kid-Below (r ∷ rs) (s ∷ ss) zero h a e = h.0 a e
kid-Below (r ∷ rs) (s ∷ ss) (suc i) h a e = kid-Below rs ss i h.1 a e

module _ (rs ss : List (Result Value)) (h : AllBelow rs ss) where
  one_kid-Below {ℓ} : {B : Type ℓ} (f : Value → Result B) → Below (kid rs 0 >>= f) (kid ss 0 >>= f)
  one_kid-Below f = >>=-Below (kid rs 0) (kid ss 0) f f (kid-Below rs ss 0 h) (λ a b e. e)

  both_kids-Below {ℓ} :
      {B : Type ℓ} (f : Value × Value → Result B) → Below (both_kids rs >>= f) (both_kids ss >>= f)
  both_kids-Below f =
      >>=-Below (both_kids rs) (both_kids ss) f f
        (>>=-Below (kid rs 0) (kid ss 0) _ _ (kid-Below rs ss 0 h)
          λ a. >>=-Below (kid rs 1) (kid ss 1) _ _ (kid-Below rs ss 1 h) (λ b c e. e))
        (λ a b e. e)

  eval_node-Below :
      (t : QlNodeType) (v : Value) (env : Record)
      → Below (eval_node t v rs empty) (eval_node t v ss env)
  unfolding eval_node eval_neg eval_not eval_and_or eval_compare eval_arith
  eval_node-Below sym v env = λ a e. unfold empty get find_value in cc
  eval_node-Below neg v env = one_kid-Below _
  eval_node-Below not v env = one_kid-Below _
  eval_node-Below and v env = both_kids-Below _
  eval_node-Below or v env = both_kids-Below _
  eval_node-Below eq v env = both_kids-Below _
  eval_node-Below ne v env = both_kids-Below _
  eval_node-Below lt v env = both_kids-Below _
  eval_node-Below le v env = both_kids-Below _
  eval_node-Below gt v env = both_kids-Below _
  eval_node-Below ge v env = both_kids-Below _
  eval_node-Below add v env = both_kids-Below _
  eval_node-Below sub v env = both_kids-Below _
  eval_node-Below mul v env = both_kids-Below _
  eval_node-Below div v env = both_kids-Below _
  eval_node-Below modulo v env = both_kids-Below _
  eval_node-Below _ v env = λ a e. e

mutual
  unfolding ql_eval eval_all AllBelow

  ql_eval-Below : (n : QlNode) (env : Record) → Below (ql_eval n empty) (ql_eval n env)
  ql_eval-Below (node t v kids) env =
      eval_node-Below (eval_all kids empty) (eval_all kids env) (eval_all-Below kids env) t v env

  eval_all-Below : (ns : QlNodes) (env : Record) → AllBelow (eval_all ns empty) (eval_all ns env)
  eval_all-Below nil env = tt
  eval_all-Below (cons n ns) env = (ql_eval-Below n env, eval_all-Below ns env)

-- A constant of ql_range, evaluated against the empty record, has its value in every row.
pub ql_eval-empty :
    (n : QlNode) (env : Record) (v : Value) → ql_eval n empty ≡ ok v → ql_eval n env ≡ ok v
ql_eval-empty n env v e = ql_eval-Below n env v e
