-- ===== src/Storage/Iter/Spine.antt =====
-- Where an iterator stands in the map: the pairs before its own and behind it, level by level.
pub mod Next
pub mod Prev
use sqldb.Base.{
  ℕ, zero, suc, ◌+◌, ◌-◌, ◌<◌, ◌≡◌, refl, sym, ap, ◌∙◌, subst, Bool, true, false, List, [], ◌∷◌,
  ◌++◌, append-nil, append_assoc, Option, none, some, length, ltb, get_elem?, get_elem?-some,
  get_elem?-lt, take, drop, length-drop, take_all, drop_all, ◌≤◌, Result, ok, ◌>>=◌, Bool-cases,
  ◌⊎◌, inl, inr, arith,
}
use sqldb.Storage.SortedMap.{Pair, Pairs}
use sqldb.Storage.Node.{Entry, BNode, get_ptr}
use sqldb.Storage.Node.Build.{IsComplete}
use sqldb.Storage.Node.Lookup.{get_ptr_at}
use sqldb.Storage.PageManager.{PageManager}
use sqldb.Storage.Tree.Shape.{Child, Kids, Holds, Kids-append}
use sqldb.Storage.Tree.Delete.Pieces.{Kids-last, Kids-next, Kids-empty}
use sqldb.Storage.Iter.{BIter, iter_prev, iter_next, reload_kid}

module _ {S : Type 0} (pages : PageManager S) where
  -- A level above a node of height `h` that holds `inside`, in an iterator with `before` and `behind`
  -- around that: the node's links to both sides, and what stands around the node itself.
  pub record Level (h : ℕ) (s : S) (node : BNode) (i : ℕ) (before inside behind : Pairs)
      : Type 0 where
    pub entry : Entry
    pub at : get_elem? node.entries i ≡ some entry
    pub complete : IsComplete node
    pub left : Pairs
    pub right : Pairs
    pub outer_before : Pairs
    pub outer_behind : Pairs
    pub kids_left : Kids pages (Holds pages h s) s (take i node.entries) left
    pub kid : Child pages (Holds pages h s) s entry inside
    pub kids_right : Kids pages (Holds pages h s) s (drop (suc i) node.entries) right
    pub is_before : before ≡ outer_before ++ left
    pub is_behind : behind ≡ right ++ outer_behind

  abbrev pub Spine : ℕ → S → BIter → Pairs → Pairs → Pairs → Type 0
  Spine h s [] before inside behind = (before ≡ []) × (behind ≡ [])
  Spine h s ((node, i) ∷ ups) before inside behind =
      (l : Level h s node i before inside behind) × Spine (suc h) s ups l.outer_before
        (l.left ++ (inside ++ l.right)) l.outer_behind

  pub Kids-some :
      (P : BNode → Pairs → Type 0) (s : S) (es : List Entry) (kvs : Pairs) (kv : Pair)
      (rest : Pairs)
      → kvs ≡ kv ∷ rest
      → Kids pages P s es kvs
      → (e : Entry) × (get_elem? es 0 ≡ some e)
  Kids-some P s [] kvs kv rest starts kids = absurd (ground (arith, starts, kids))
  Kids-some P s (e ∷ es) kvs kv rest starts kids = (e, refl)

  -- The links up to one, and the link itself.
  pub Kids-through :
      (P : BNode → Pairs → Type 0) (s : S) (es : List Entry) (i : ℕ) (e : Entry) (xs ys : Pairs)
      → get_elem? es i ≡ some e
      → Kids pages P s (take i es) xs
      → Child pages P s e ys
      → Kids pages P s (take (suc i) es) (xs ++ ys)
  Kids-through P s [] i e xs ys at kids c = cc
  Kids-through P s (f ∷ es) zero e xs ys at kids c =
      let same : f ≡ e = cc in
      (
        ys,
        [],
        subst (λ g. Child pages P s g ys) (sym same) c,
        refl,
        ap (λ l. l ++ ys) kids ∙ sym (append-nil ys),
      )
  Kids-through P s (f ∷ es) (suc i) e xs ys at (ms, bs, d, kids, split) c = (
    ms,
    bs ++ ys,
    d,
    Kids-through P s es i e bs ys at kids c,
    ap (λ l. l ++ ys) split ∙ append_assoc ms bs ys,
  )

  -- A link, and those behind it.
  pub Kids-from :
      (P : BNode → Pairs → Type 0) (s : S) (es : List Entry) (i : ℕ) (e : Entry) (xs ys : Pairs)
      → get_elem? es i ≡ some e
      → Child pages P s e xs
      → Kids pages P s (drop (suc i) es) ys
      → Kids pages P s (drop i es) (xs ++ ys)
  Kids-from P s [] i e xs ys at c kids = cc
  Kids-from P s (f ∷ es) zero e xs ys at c kids =
      let same : f ≡ e = cc in (xs, ys, subst (λ g. Child pages P s g xs) (sym same) c, kids, refl)
  Kids-from P s (f ∷ es) (suc i) e xs ys at c kids = Kids-from P s es i e xs ys at c kids
