-- ===== src/Storage/Iter/Spine/Prev.antt =====
-- iter_prev above a node: the node before it of its height, where there is one.
use sqldb.Base.{
  ℕ, zero, suc, ◌-◌, ◌≡◌, refl, sym, ap, ◌∙◌, subst, true, [], ◌∷◌, ◌++◌, append-nil, append_assoc,
  Option, none, some, ltb, get_elem?-some, get_elem?-lt, take_all, drop_all, Result, ok, ◌⊎◌, inl,
  inr, arith,
}
use sqldb.Storage.SortedMap.{Pairs}
use sqldb.Storage.Node.{BNode}
use sqldb.Storage.Node.Lookup.{get_ptr_at}
use sqldb.Storage.PageManager.{PageManager}
use sqldb.Storage.Tree.Shape.{Kids, Holds}
use sqldb.Storage.Tree.Delete.Pieces.{Kids-last}
use sqldb.Storage.Iter.{BIter, iter_prev, reload_kid}
use sqldb.Storage.Iter.Spine.{Spine, Kids-some, Kids-from}

module _ {S : Type 0} (pages : PageManager S) where
  -- What iter_prev finds before a node: nothing, or the node before it of its height.
  abbrev pub Backward : ℕ → S → Pairs → Pairs → Result (Option BIter) → Type 0
  Backward h s before behind result =
      ((before ≡ []) × (result ≡ ok none))
      ⊎ ((node : BNode) × (i : ℕ) × (ups : BIter) × (xs : Pairs) × (ys : Pairs) × (result
            ≡ ok (some ((node, i) ∷ ups)))
          × (before ≡ xs ++ ys)
          × Spine pages h s ((node, i) ∷ ups) xs ys behind)

  last_kid :
      (h : ℕ) (s : S) (node : BNode) (i : ℕ) (ups : BIter) (before inside behind : Pairs)
      → Spine pages (suc h) s ((node, i) ∷ ups) before inside behind
      → (kid : BNode) × (k : ℕ) × (xs : Pairs) × (ys : Pairs) × (reload_kid pages s true
            ((node, i) ∷ ups)
          ≡ ok ((kid, k) ∷ (node, i) ∷ ups))
        × (inside ≡ xs ++ ys)
        × Spine pages h s ((kid, k) ∷ (node, i) ∷ ups) (before ++ xs) ys behind
  unfolding reload_kid
  last_kid h s node i ups before inside behind (l, spine) =
      let (type, kids) = l.kid.holds in
      let kid = l.kid.node in
      let (f, first) =
        Kids-some pages (Holds pages h s) s kid.entries inside (l.entry.key, l.kid.val) l.kid.rest
          l.kid.starts kids in
      let counted = l.kid.complete.counted in
      let some_link = get_elem?-lt kid.entries 0 f first in
      let (e, at) = get_elem?-some kid.entries (kid.nkeys - 1) (omega arith) in
      let all = take_all (suc (kid.nkeys - 1)) kid.entries (omega arith) in
      let (xs, ys, others, c, split) =
        Kids-last pages (Holds pages h s) s kid.entries (kid.nkeys - 1) e inside at
          (subst (λ es. Kids pages (Holds pages h s) s es inside) (sym all) kids) in
      (
        kid,
        kid.nkeys - 1,
        xs,
        ys,
        rw (get_ptr_at node i l.entry l.at, l.kid.stored) refl,
        split,
        (
          record {
            entry = e;
            at = at;
            complete = l.kid.complete;
            left = xs;
            right = [];
            outer_before = before;
            outer_behind = behind;
            kids_left = others;
            kid = c;
            kids_right =
                subst (λ es. Kids pages (Holds pages h s) s es [])
                  (sym (drop_all (suc (kid.nkeys - 1)) kid.entries (omega arith))) refl;
            is_before = refl;
            is_behind = refl;
          },
          subst (λ m. Spine pages (suc h) s ((node, i) ∷ ups) before m behind)
              (split ∙ ap (λ m. xs ++ m) (sym (append-nil ys))) (l, spine),
        ),
      )

  pub iter_prev-Backward :
      (h : ℕ) (s : S) (ups : BIter) (before inside behind : Pairs)
      → Spine pages h s ups before inside behind
      → Backward h s before (inside ++ behind) (iter_prev pages s ups)
  unfolding iter_prev
  iter_prev-Backward h s [] before inside behind (first, last) = inl (first, refl)
  iter_prev-Backward h s ((node, suc k) ∷ ups) before inside behind (l, spine) =
      let inner : ltb 0 (suc k) ≡ true = ground arith in
      let back : suc k - 1 ≡ k = omega arith in
      let (g, at) =
        get_elem?-some node.entries k
          (omega (arith, get_elem?-lt node.entries (suc k) l.entry l.at)) in
      let (xs, ys, others, c, split) =
        Kids-last pages (Holds pages h s) s node.entries k g l.left at l.kids_left in
      inr (
        node,
        k,
        ups,
        l.outer_before ++ xs,
        ys,
        rw (inner, back) refl,
        l.is_before ∙ ap (λ m. l.outer_before ++ m) split ∙ sym (append_assoc l.outer_before xs ys),
        (
          record {
            entry = g;
            at = at;
            complete = l.complete;
            left = xs;
            right = inside ++ l.right;
            outer_before = l.outer_before;
            outer_behind = l.outer_behind;
            kids_left = others;
            kid = c;
            kids_right =
                Kids-from pages (Holds pages h s) s node.entries (suc k) l.entry inside l.right l.at
                  l.kid l.kids_right;
            is_before = refl;
            is_behind =
                ap (λ m. inside ++ m) l.is_behind
                ∙ sym (append_assoc inside l.right l.outer_behind);
          },
          subst (λ m. Spine pages (suc h) s ups l.outer_before m l.outer_behind)
              (ap (λ m. m ++ (inside ++ l.right)) split ∙ append_assoc xs ys (inside ++ l.right))
              spine,
        ),
      )
  iter_prev-Backward h s ((node, zero) ∷ ups) before inside behind (l, spine) =
      let at_first : l.left ≡ [] = l.kids_left in
      let behind_here : (l.left ++ (inside ++ l.right)) ++ l.outer_behind ≡ inside ++ behind =
        ap (λ m. (m ++ (inside ++ l.right)) ++ l.outer_behind) at_first
        ∙ append_assoc inside l.right l.outer_behind
        ∙ ap (λ m. inside ++ m) (sym l.is_behind) in
      let before_here : before ≡ l.outer_before =
        l.is_before ∙ ap (λ m. l.outer_before ++ m) at_first ∙ append-nil l.outer_before in
      elim (iter_prev-Backward (suc h) s ups l.outer_before (l.left ++ (inside ++ l.right))
        l.outer_behind spine) [
          | inl (done, call) ↦ inl (before_here ∙ done, rw call refl)
          | inr (up, j, levels, xs, ys, call, split, above) ↦
              let (kid, k, ms, bs, loaded, parts, below) =
                last_kid h s up j levels xs ys ((l.left ++ (inside ++ l.right)) ++ l.outer_behind)
                  above in
              inr (
                kid,
                k,
                (up, j) ∷ levels,
                xs ++ ms,
                bs,
                rw (call, loaded) refl,
                before_here ∙ split ∙ ap (λ m. xs ++ m) parts ∙ sym (append_assoc xs ms bs),
                subst (λ m. Spine pages h s ((kid, k) ∷ (up, j) ∷ levels) (xs ++ ms) bs m)
                    behind_here below,
              )
        ]
