-- ===== src/Storage/Iter/Spine/Next.antt =====
-- iter_next above a node: the next node of its height, where there is one.
use sqldb.Base.{
  ℕ, suc, ◌+◌, ◌≡◌, refl, sym, ap, ◌∙◌, subst, false, [], ◌∷◌, ◌++◌, append-nil, append_assoc,
  Option, none, some, ltb, get_elem?-some, drop, length-drop, ◌≤◌, Result, ok, Bool-cases, ◌⊎◌, inl,
  inr, arith,
}
use sqldb.Storage.SortedMap.{Pairs}
use sqldb.Storage.Node.{BNode}
use sqldb.Storage.Node.Lookup.{get_ptr_at}
use sqldb.Storage.PageManager.{PageManager}
use sqldb.Storage.Tree.Shape.{Holds}
use sqldb.Storage.Tree.Delete.Pieces.{Kids-next, Kids-empty}
use sqldb.Storage.Iter.{BIter, iter_next, reload_kid}
use sqldb.Storage.Iter.Spine.{Spine, Kids-some, Kids-through}

module _ {S : Type 0} (pages : PageManager S) where
  -- What iter_next finds behind a node that is done: nothing, or the next node of its height.
  abbrev pub Onward : ℕ → S → Pairs → Pairs → Result (Option BIter) → Type 0
  Onward h s before behind result =
      ((behind ≡ []) × (result ≡ ok none))
      ⊎ ((node : BNode) × (i : ℕ) × (ups : BIter) × (xs : Pairs) × (ys : Pairs) × (result
            ≡ ok (some ((node, i) ∷ ups)))
          × (behind ≡ xs ++ ys)
          × Spine pages h s ((node, i) ∷ ups) before xs ys)

  -- The node that reload_kid puts below a level, at its first link.
  first_kid :
      (h : ℕ) (s : S) (node : BNode) (i : ℕ) (ups : BIter) (before inside behind : Pairs)
      → Spine pages (suc h) s ((node, i) ∷ ups) before inside behind
      → (kid : BNode) × (xs : Pairs) × (ys : Pairs) × (reload_kid pages s false ((node, i) ∷ ups)
          ≡ ok ((kid, 0) ∷ (node, i) ∷ ups))
        × (inside ≡ xs ++ ys)
        × Spine pages h s ((kid, 0) ∷ (node, i) ∷ ups) before xs (ys ++ behind)
  unfolding reload_kid
  first_kid h s node i ups before inside behind (l, spine) =
      let (type, kids) = l.kid.holds in
      let (e, at) =
        Kids-some pages (Holds pages h s) s l.kid.node.entries inside (l.entry.key, l.kid.val)
          l.kid.rest l.kid.starts kids in
      let (xs, ys, c, others, split) =
        Kids-next pages (Holds pages h s) s l.kid.node.entries 0 e inside at kids in
      (
        l.kid.node,
        xs,
        ys,
        rw (get_ptr_at node i l.entry l.at, l.kid.stored) refl,
        split,
        (
          record {
            entry = e;
            at = at;
            complete = l.kid.complete;
            left = [];
            right = ys;
            outer_before = before;
            outer_behind = behind;
            kids_left = refl;
            kid = c;
            kids_right = others;
            is_before = sym (append-nil before);
            is_behind = refl;
          },
          subst (λ l. Spine pages (suc h) s ((node, i) ∷ ups) before l behind) split (l, spine),
        ),
      )

  pub iter_next-Onward :
      (h : ℕ) (s : S) (ups : BIter) (before inside behind : Pairs)
      → Spine pages h s ups before inside behind
      → Onward h s (before ++ inside) behind (iter_next pages s ups)
  unfolding iter_next
  iter_next-Onward h s [] before inside behind (first, last) = inl (last, refl)
  iter_next-Onward h s ((node, i) ∷ ups) before inside behind (l, spine) =
      elim (Bool-cases (ltb (i + 1) node.nkeys)) [
        | inl more ↦
            let (g, at) =
              get_elem?-some node.entries (suc i) (ground (arith, more, l.complete.counted)) in
            let (xs, ys, c, others, split) =
              Kids-next pages (Holds pages h s) s node.entries (suc i) g l.right at l.kids_right in
            let next : i + 1 ≡ suc i = omega arith in
            inr (
              node,
              suc i,
              ups,
              xs,
              ys ++ l.outer_behind,
              rw (more, next) refl,
              l.is_behind ∙ ap (λ m. m ++ l.outer_behind) split ∙ append_assoc xs ys l.outer_behind,
              (
                record {
                  entry = g;
                  at = at;
                  complete = l.complete;
                  left = l.left ++ inside;
                  right = ys;
                  outer_before = l.outer_before;
                  outer_behind = l.outer_behind;
                  kids_left =
                      Kids-through pages (Holds pages h s) s node.entries i l.entry l.left inside
                        l.at l.kids_left l.kid;
                  kid = c;
                  kids_right = others;
                  is_before =
                      ap (λ m. m ++ inside) l.is_before ∙ append_assoc l.outer_before l.left inside;
                  is_behind = refl;
                },
                subst (λ m. Spine pages (suc h) s ups l.outer_before m l.outer_behind)
                    (ap (λ m. l.left ++ (inside ++ m)) split
                      ∙ sym (append_assoc l.left inside (xs ++ ys)))
                    spine,
              ),
            )
        | inr over ↦
            let short : node.nkeys ≤ i + 1 = ground (arith, over) in
            let at_last : l.right ≡ [] =
              Kids-empty pages (Holds pages h s) s (drop (suc i) node.entries) l.right
                (omega (arith, length-drop (suc i) node.entries, l.complete.counted, short))
                l.kids_right in
            elim (iter_next-Onward (suc h) s ups l.outer_before (l.left ++ (inside ++ l.right))
              l.outer_behind spine) [
                | inl (done, call) ↦ inl (
                  l.is_behind ∙ ap (λ m. m ++ l.outer_behind) at_last ∙ done,
                  rw (over, call) refl,
                )
                | inr (up, j, levels, xs, ys, call, split, above) ↦
                    let (kid, ms, bs, loaded, parts, below) =
                      first_kid h s up j levels (l.outer_before ++ (l.left ++ (inside ++ l.right)))
                        xs ys above in
                    inr (
                      kid,
                      0,
                      (up, j) ∷ levels,
                      ms,
                      bs ++ ys,
                      rw (over, call, loaded) refl,
                      l.is_behind
                          ∙ ap (λ m. m ++ l.outer_behind) at_last
                          ∙ split
                          ∙ ap (λ m. m ++ ys) parts
                          ∙ append_assoc ms bs ys,
                      subst (λ m. Spine pages h s ((kid, 0) ∷ (up, j) ∷ levels) m ms (bs ++ ys))
                          (ap (λ m. l.outer_before ++ (l.left ++ m))
                              (ap (λ m. inside ++ m) at_last ∙ append-nil inside)
                            ∙ sym (append_assoc l.outer_before l.left inside)
                            ∙ ap (λ m. m ++ inside) (sym l.is_before))
                          below,
                    )
              ]
      ]
