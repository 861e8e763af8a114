-- ===== src/Storage/Iter/Seek.antt =====
-- BTree::seek_le stands at the last pair whose key is not above the given one.
use sqldb.Base.{
  ℕ, ◌<◌, ◌≡◌, refl, sym, ap, ◌∙◌, subst, [], ◌∷◌, ◌++◌, some, length, ltb, if◌then◌else◌, Bytes,
  ok, stop, asserted, Bool-cases, inl, inr, arith,
}
use sqldb.Storage.SortedMap.{Pair, Pairs, Sorted, Sorted-below, floor, floor-append, floor_here}
use sqldb.Storage.Node.{BNode}
use sqldb.Storage.PageManager.{PageManager}
use sqldb.Storage.Tree.Get.{IsTree, tree, empty_tree}
use sqldb.Storage.Iter.{BIter, valid, deref, seek_le}
use sqldb.Storage.Iter.Place.{Place}
use sqldb.Storage.Iter.Place.Valid.{live_at, start_at}
use sqldb.Storage.Iter.Floor.{Less-nonempty, seek_le-Floor}

nothing_below_empty :
    (xs : Pairs) (y : Pair) (ys : Pairs) → Sorted (xs ++ y ∷ ys) → length y.0 ≡ 0 → xs ≡ []
nothing_below_empty [] y ys sorted bare = refl
nothing_below_empty (x ∷ xs) y ys sorted bare =
    absurd (omega (arith, bare, Less-nonempty x.0 y.0 (Sorted-below (x ∷ xs) y ys sorted).0))

module _ {S : Type 0} (pages : PageManager S) where
  read_at :
      {s : S} (leaf : BNode) (pos : ℕ) (ups : BIter) (before : Pairs) (kv : Pair) (behind : Pairs)
      → Place pages s leaf pos ups before kv behind
      → Sorted (before ++ kv ∷ behind)
      → (valid ((leaf, pos) ∷ ups) ≡ ltb 0 (length kv.0))
        × (deref ((leaf, pos) ∷ ups) ≡ (if ltb 0 (length kv.0) then ok kv else stop asserted))
  unfolding deref
  read_at {s = s} leaf pos ups before kv behind p sorted = elim (Bool-cases (ltb 0 (length kv.0))) [
    | inl e ↦
        let (good, value) = live_at pages s leaf pos ups before kv behind p (ground (arith, e)) in
        (good ∙ sym e, rw e value)
    | inr e ↦
        let bare : length kv.0 ≡ 0 = ground (arith, e) in
        let bad =
          start_at pages s leaf pos ups before kv behind p
            (nothing_below_empty before kv behind sorted bare) bare in
        (bad ∙ sym e, rw (e, bad) refl)
  ]

  -- In a tree with a root, and with fuel beyond its height, seek_le returns an iterator at the last pair of
  -- the map whose key is not above the given one. The iterator is valid, and deref returns the pair, unless
  -- that is the pair with the empty key.
  pub seek_le-floor :
      (h fuel root : ℕ) (s : S) (key : Bytes) (kvs : Pairs)
      → h < fuel
      → 0 < root
      → IsTree pages h root s kvs
      → (iter : BIter) × (kv : Pair) × (seek_le pages fuel root key s ≡ ok iter)
        × (floor key kvs ≡ some kv)
        × (valid iter ≡ ltb 0 (length kv.0))
        × (deref iter ≡ (if ltb 0 (length kv.0) then ok kv else stop asserted))
  seek_le-floor h fuel root s key kvs deep there (empty_tree _ _) = absurd (omega arith)
  seek_le-floor h fuel root s key kvs deep there
        (tree _ _ _ n val rest nonzero alive stored complete small sorted holds) =
      let (leaf, pos, ups, done, f, order) =
        seek_le-Floor pages h fuel root s key val rest deep
          (tree _ _ _ n val rest nonzero alive stored complete small sorted holds) in
      let (good, value) =
        read_at leaf pos ups f.before f.kv f.behind f.place (subst Sorted f.whole sorted) in
      (
        (leaf, pos) ∷ ups,
        f.kv,
        done,
        ap (floor key) f.whole
            ∙ floor-append key f.before f.kv f.behind f.below f.low
            ∙ floor_here key f.kv f.behind f.low f.above,
        good,
        value,
      )
