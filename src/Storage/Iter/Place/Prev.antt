-- ===== src/Storage/Iter/Place/Prev.antt =====
-- BIter::prev goes from a pair of the map to the one before it.
use sqldb.Base.{
  ℕ, zero, suc, ◌-◌, ◌≡◌, refl, sym, ap, ◌∙◌, subst, true, List, [], ◌∷◌, ◌++◌, append-nil,
  append_assoc, some, length, take_all, drop_all, ltb, get_elem?, get_elem?-some, get_elem?-lt,
  take, ok, ◌⊎◌, inl, inr, arith,
}
use sqldb.Storage.SortedMap.{Pair, Pairs}
use sqldb.Storage.Node.{Entry, BNode}
use sqldb.Storage.Node.Lookup.{pairs, get_ptr_at}
use sqldb.Storage.PageManager.{PageManager}
use sqldb.Storage.Iter.{BIter, prev, iter_prev, reload_kid}
use sqldb.Storage.Iter.Spine.{Spine}
use sqldb.Storage.Iter.Spine.Prev.{iter_prev-Backward}
use sqldb.Storage.Iter.Place.{Place, pairs-take, here}

module _ {S : Type 0} (pages : PageManager S) where
  last_leaf :
      (s : S) (node : BNode) (i : ℕ) (ups : BIter) (before inside behind : Pairs)
      → Spine pages 0 s ((node, i) ∷ ups) before inside behind
      → (leaf : BNode) × (k : ℕ) × (xs : Pairs) × (kv : Pair) × (reload_kid pages s true
            ((node, i) ∷ ups)
          ≡ ok ((leaf, k) ∷ (node, i) ∷ ups))
        × (before ++ inside ≡ xs ++ kv ∷ [])
        × Place pages s leaf k ((node, i) ∷ ups) xs kv behind
  unfolding reload_kid
  last_leaf s node i ups before inside behind (l, spine) =
      let (type, same) = l.kid.holds in
      let leaf = l.kid.node in
      let counted = l.kid.complete.counted in
      let (e, at) =
        last_entry leaf.entries (l.entry.key, l.kid.val) l.kid.rest (same ∙ l.kid.starts) leaf.nkeys
          counted in
      let whole : pairs leaf.entries
          ≡ pairs (take (leaf.nkeys - 1) leaf.entries) ++ (e.key, e.val) ∷ [] =
        sym (ap pairs (take_all (suc (leaf.nkeys - 1)) leaf.entries (omega arith)))
        ∙ pairs-take leaf.entries (leaf.nkeys - 1) e at in
      (
        leaf,
        leaf.nkeys - 1,
        before ++ pairs (take (leaf.nkeys - 1) leaf.entries),
        (e.key, e.val),
        rw (get_ptr_at node i l.entry l.at, l.kid.stored) refl,
        ap (λ m. before ++ m) (sym same ∙ whole)
            ∙ sym (
                append_assoc before (pairs (take (leaf.nkeys - 1) leaf.entries))
                  ((e.key, e.val) ∷ [])),
        record {
          entry = e;
          at = at;
          complete = l.kid.complete;
          outer_before = before;
          outer_behind = behind;
          spine =
              subst (λ m. Spine pages 0 s ((node, i) ∷ ups) before m behind) (sym same) (l, spine);
          is_before = refl;
          is_kv = refl;
          is_behind =
              ap (λ m. pairs m ++ behind)
                (sym (drop_all (suc (leaf.nkeys - 1)) leaf.entries (omega arith)));
        },
      )
    where
      last_entry :
          (es : List Entry) (kv : Pair) (rest : Pairs)
          → pairs es ≡ kv ∷ rest
          → (n : ℕ) → n ≡ length es
          → (e : Entry) × (get_elem? es (n - 1) ≡ some e)
      last_entry [] kv rest e n counted = cc
      last_entry (f ∷ es) kv rest e n counted = get_elem?-some (f ∷ es) (n - 1) (omega arith)

  -- prev goes to the pair before, or stays at the first one.
  pub prev-Place :
      (s : S) (leaf : BNode) (pos : ℕ) (ups : BIter) (before : Pairs) (kv : Pair) (behind : Pairs)
      → Place pages s leaf pos ups before kv behind
      → ((before ≡ []) × (prev pages s ((leaf, pos) ∷ ups) ≡ ok ((leaf, pos) ∷ ups)))
        ⊎ ((back : BNode) × (i : ℕ) × (levels : BIter) × (sooner : Pair) × (rest : Pairs) × (prev
                pages s
                ((leaf, pos) ∷ ups)
              ≡ ok ((back, i) ∷ levels))
            × (before ≡ rest ++ sooner ∷ [])
            × Place pages s back i levels rest sooner (kv ∷ behind))
  unfolding prev iter_prev
  prev-Place s leaf (suc k) ups before kv behind p =
      let inner : ltb 0 (suc k) ≡ true = ground arith in
      let back : suc k - 1 ≡ k = omega arith in
      let (e, at) =
        get_elem?-some leaf.entries k
          (omega (arith, get_elem?-lt leaf.entries (suc k) p.entry p.at)) in
      inr (
        leaf,
        k,
        ups,
        (e.key, e.val),
        p.outer_before ++ pairs (take k leaf.entries),
        rw (inner, back) refl,
        p.is_before
            ∙ ap (λ m. p.outer_before ++ m) (pairs-take leaf.entries k e at)
            ∙ sym (append_assoc p.outer_before (pairs (take k leaf.entries)) ((e.key, e.val) ∷ [])),
        record {
          entry = e;
          at = at;
          complete = p.complete;
          outer_before = p.outer_before;
          outer_behind = p.outer_behind;
          spine = p.spine;
          is_before = refl;
          is_kv = refl;
          is_behind = here pages p;
        },
      )
  prev-Place s leaf zero ups before kv behind p =
      let at_first : before ≡ p.outer_before = p.is_before ∙ append-nil p.outer_before in
      elim (iter_prev-Backward pages 0 s ups p.outer_before (pairs leaf.entries) p.outer_behind
        p.spine) [
          | inl (done, call) ↦ inl (at_first ∙ done, rw call refl)
          | inr (up, j, levels, xs, ys, call, split, above) ↦
              let (back, i, rest, sooner, loaded, parts, place) =
                last_leaf s up j levels xs ys (pairs leaf.entries ++ p.outer_behind) above in
              inr (
                back,
                i,
                (up, j) ∷ levels,
                sooner,
                rest,
                rw (call, loaded) refl,
                at_first ∙ split ∙ parts,
                subst (Place pages s back i ((up, j) ∷ levels) rest sooner) (sym (here pages p))
                    place,
              )
        ]
