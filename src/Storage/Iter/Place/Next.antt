-- ===== src/Storage/Iter/Place/Next.antt =====
-- BIter::next goes from a pair of the map to the one behind it.
use sqldb.Base.{
  ℕ, suc, ◌+◌, ◌≤◌, ◌≡◌, refl, sym, ap, ◌∙◌, subst, false, List, [], ◌∷◌, ◌++◌, append-nil,
  append_assoc, some, length, drop_all, ltb, get_elem?, get_elem?-some, take, drop, ok, Bool-cases,
  ◌⊎◌, inl, inr, arith,
}
use sqldb.Storage.SortedMap.{Pair, Pairs}
use sqldb.Storage.Node.{Entry, BNode}
use sqldb.Storage.Node.Lookup.{pairs, get_ptr_at}
use sqldb.Storage.PageManager.{PageManager}
use sqldb.Storage.Iter.{BIter, next, iter_next, reload_kid}
use sqldb.Storage.Iter.Spine.{Spine}
use sqldb.Storage.Iter.Spine.Next.{iter_next-Onward}
use sqldb.Storage.Iter.Place.{Place, pairs-drop, up_to, through}

module _ {S : Type 0} (pages : PageManager S) where
  -- A leaf that reload_kid has put below a level.
  first_leaf :
      (s : S) (node : BNode) (i : ℕ) (ups : BIter) (before inside behind : Pairs)
      → Spine pages 0 s ((node, i) ∷ ups) before inside behind
      → (leaf : BNode) × (kv : Pair) × (rest : Pairs) × (reload_kid pages s false ((node, i) ∷ ups)
          ≡ ok ((leaf, 0) ∷ (node, i) ∷ ups))
        × (inside ++ behind ≡ kv ∷ rest)
        × Place pages s leaf 0 ((node, i) ∷ ups) before kv rest
  unfolding reload_kid
  first_leaf s node i ups before inside behind (l, spine) =
      let (type, same) = l.kid.holds in
      let (e, at) =
        first_entry l.kid.node.entries (l.entry.key, l.kid.val) l.kid.rest (same ∙ l.kid.starts) in
      let split = pairs-drop l.kid.node.entries 0 e at in
      (
        l.kid.node,
        (e.key, e.val),
        pairs (drop 1 l.kid.node.entries) ++ behind,
        rw (get_ptr_at node i l.entry l.at, l.kid.stored) refl,
        ap (λ m. m ++ behind) (sym same ∙ split),
        record {
          entry = e;
          at = at;
          complete = l.kid.complete;
          outer_before = before;
          outer_behind = behind;
          spine =
              subst (λ m. Spine pages 0 s ((node, i) ∷ ups) before m behind) (sym same) (l, spine);
          is_before = sym (append-nil before);
          is_kv = refl;
          is_behind = refl;
        },
      )
    where
      first_entry :
          (es : List Entry) (kv : Pair) (rest : Pairs)
          → pairs es ≡ kv ∷ rest
          → (e : Entry) × (get_elem? es 0 ≡ some e)
      first_entry [] kv rest e = cc
      first_entry (f ∷ es) kv rest e = (f, refl)

  -- next goes to the pair behind, or past the last one.
  pub next-Place :
      (s : S) (leaf : BNode) (pos : ℕ) (ups : BIter) (before : Pairs) (kv : Pair) (behind : Pairs)
      → Place pages s leaf pos ups before kv behind
      → ((behind ≡ []) × (next pages s ((leaf, pos) ∷ ups) ≡ ok ((leaf, leaf.nkeys) ∷ ups)))
        ⊎ ((on : BNode) × (i : ℕ) × (levels : BIter) × (later : Pair) × (rest : Pairs) × (next pages
                s
                ((leaf, pos) ∷ ups)
              ≡ ok ((on, i) ∷ levels))
            × (behind ≡ later ∷ rest)
            × Place pages s on i levels (before ++ kv ∷ []) later rest)
  unfolding next iter_next
  next-Place s leaf pos ups before kv behind p = elim (Bool-cases (ltb (pos + 1) leaf.nkeys)) [
    | inl more ↦
        let one_on : pos + 1 ≡ suc pos = omega arith in
        let (e, at) =
          get_elem?-some leaf.entries (suc pos) (ground (arith, more, p.complete.counted)) in
        inr (
          leaf,
          suc pos,
          ups,
          (e.key, e.val),
          pairs (drop (suc (suc pos)) leaf.entries) ++ p.outer_behind,
          rw (more, one_on) refl,
          p.is_behind ∙ ap (λ m. m ++ p.outer_behind) (pairs-drop leaf.entries (suc pos) e at),
          record {
            entry = e;
            at = at;
            complete = p.complete;
            outer_before = p.outer_before;
            outer_behind = p.outer_behind;
            spine = p.spine;
            is_before =
                ap (λ m. m ++ kv ∷ []) p.is_before
                ∙ append_assoc p.outer_before (pairs (take pos leaf.entries)) (kv ∷ [])
                ∙ ap (λ m. p.outer_before ++ m) (sym (up_to pages p));
            is_kv = refl;
            is_behind = refl;
          },
        )
    | inr over ↦
        let short : length leaf.entries ≤ suc pos = ground (arith, over, p.complete.counted) in
        let at_last : behind ≡ p.outer_behind =
          p.is_behind
          ∙ ap (λ m. pairs m ++ p.outer_behind) (drop_all (suc pos) leaf.entries short) in
        elim (iter_next-Onward pages 0 s ups p.outer_before (pairs leaf.entries) p.outer_behind
          p.spine) [
            | inl (done, call) ↦ inl (at_last ∙ done, rw (over, call) refl)
            | inr (up, j, levels, xs, ys, call, split, above) ↦
                let (on, later, rest, loaded, parts, place) =
                  first_leaf s up j levels (p.outer_before ++ pairs leaf.entries) xs ys above in
                inr (
                  on,
                  0,
                  (up, j) ∷ levels,
                  later,
                  rest,
                  rw (over, call, loaded) refl,
                  at_last ∙ split ∙ parts,
                  subst (λ m. Place pages s on 0 ((up, j) ∷ levels) m later rest)
                      (through pages p short) place,
                )
          ]
  ]
