-- ===== src/Storage/Iter/Floor.antt =====
-- The place that BTree::seek_le stops at: what is before it is smaller than the key, what is behind it greater.
use sqldb.Base.{
  append-nil, length, ℕ, zero, suc, ◌<◌, ◌≡◌, ◌≢◌, refl, sym, ap, ◌∙◌, subst, true, false, [], ◌∷◌,
  ◌++◌, append_assoc, take, drop, get_elem?-some, ◌==◌, Bytes, lex, Ordering, ok, arith,
}
use sqldb.Storage.SortedMap.{Less, Pair, Pairs, AllAbove, AllBelow, Sorted}
use sqldb.Storage.Node.{BNode, bnode_node}
use sqldb.Storage.Node.Build.{IsComplete}
use sqldb.Storage.Node.Lookup.{pairs, get_ptr_at}
use sqldb.Storage.PageManager.{PageManager}
use sqldb.Storage.Tree.Shape.{Holds, Kids-Around, Around-order, Around-Sorted}
use sqldb.Storage.Tree.Get.{IsTree, tree, entries_at, leaf_order}
use sqldb.Storage.Tree.Replace.{IsFloor-found}
use sqldb.Storage.Iter.{seek_le, BIter, seek_loop}
use sqldb.Storage.Iter.Spine.{Spine}
use sqldb.Storage.Iter.Place.{Place}

pub Less-nonempty : (a b : Bytes) → Less a b → 0 < length b
unfolding lex
Less-nonempty [] [] h = cc
Less-nonempty (x ∷ a) [] h = cc
Less-nonempty a (y ∷ b) h = omega arith

pub empty_first : (key : Bytes) → lex [] key ≢ Ordering.gt
unfolding lex
empty_first [] = λ e. cc
empty_first (b ∷ key) = λ e. cc

AllBelow-join : (a : Bytes) (xs ys : Pairs) → AllBelow a xs → AllBelow a ys → AllBelow a (xs ++ ys)
AllBelow-join a [] ys h k = k
AllBelow-join a (x ∷ xs) ys (h, hs) k = (h, AllBelow-join a xs ys hs k)

AllAbove-join : (a : Bytes) (xs ys : Pairs) → AllAbove a xs → AllAbove a ys → AllAbove a (xs ++ ys)
AllAbove-join a [] ys h k = k
AllAbove-join a (x ∷ xs) ys (h, hs) k = (h, AllAbove-join a xs ys hs k)

module _ {S : Type 0} (pages : PageManager S) where
  -- A place for a key: the pairs before it have smaller keys, and the pairs behind it greater ones.
  pub record Floor (s : S) (key : Bytes) (leaf : BNode) (pos : ℕ) (ups : BIter) (kvs : Pairs)
      : Type 0 where
    pub before : Pairs
    pub kv : Pair
    pub behind : Pairs
    pub place : Place pages s leaf pos ups before kv behind
    pub whole : kvs ≡ before ++ kv ∷ behind
    pub below : AllBelow key before
    pub low : lex kv.0 key ≢ Ordering.gt
    pub above : AllAbove key behind

  pub seek_loop-Floor :
      (h fuel : ℕ) (s : S) (key : Bytes) (ptr : ℕ) (n : BNode) (kv : Pair) (kvs : Pairs)
      (levels : BIter) (before behind : Pairs)
      → h < fuel
      → 0 < ptr
      → pages.get s ptr ≡ ok n
      → IsComplete n
      → Sorted (kv ∷ kvs)
      → lex kv.0 key ≢ Ordering.gt
      → Holds pages h s n (kv ∷ kvs)
      → Spine pages h s levels before (kv ∷ kvs) behind
      → AllBelow key before
      → AllAbove key behind
      → (leaf : BNode) × (pos : ℕ) × (ups : BIter) × (seek_loop pages fuel key s ptr levels
          ≡ ok ((leaf, pos) ∷ ups))
        × Floor s key leaf pos ups (before ++ ((kv ∷ kvs) ++ behind))
  unfolding seek_loop
  seek_loop-Floor h zero s key ptr n kv kvs levels before behind deep nonzero stored complete sorted
        le holds spine low high =
      absurd (omega arith)
  seek_loop-Floor zero (suc fuel) s key ptr n kv kvs levels before behind deep nonzero stored
        complete sorted le (type, same) spine low high =
      let (i, found, spot) = IsFloor-found pages 0 s n key kv kvs complete (type, same) sorted le in
      let (f, at) = get_elem?-some n.entries i spot.0 in
      let (under, over, here) = leaf_order n i f key (subst Sorted (sym same) sorted) at spot in
      let live : (ptr == 0) ≡ false = ground (arith, nonzero) in
      let is_leaf : (n.btype == bnode_node) ≡ false = ground (arith, type) in
      (
        n,
        i,
        levels,
        rw (live, stored, found, is_leaf) (stop_here fuel s key ((n, i) ∷ levels)),
        record {
          before = before ++ pairs (take i n.entries);
          kv = (f.key, f.val);
          behind = pairs (drop (suc i) n.entries) ++ behind;
          place = record {
            entry = f;
            at = at;
            complete = complete;
            outer_before = before;
            outer_behind = behind;
            spine = subst (λ m. Spine pages 0 s levels before m behind) (sym same) spine;
            is_before = refl;
            is_kv = refl;
            is_behind = refl;
          };
          whole =
              ap (λ m. before ++ (m ++ behind)) (sym same ∙ entries_at n.entries i f at)
              ∙ ap (λ m. before ++ m)
                  (append_assoc (pairs (take i n.entries))
                    ((f.key, f.val) ∷ pairs (drop (suc i) n.entries)) behind)
              ∙ sym (
                  append_assoc before (pairs (take i n.entries))
                    ((f.key, f.val) ∷ (pairs (drop (suc i) n.entries) ++ behind)));
          below = AllBelow-join key before (pairs (take i n.entries)) low under;
          low = here;
          above = AllAbove-join key (pairs (drop (suc i) n.entries)) behind over high;
        },
      )
    where
      stop_here :
          (fuel : ℕ) (s : S) (key : Bytes) (levels : BIter)
          → seek_loop pages fuel key s 0 levels ≡ ok levels
      stop_here zero s key levels = refl
      stop_here (suc fuel) s key levels = refl
  seek_loop-Floor (suc h) (suc fuel) s key ptr n kv kvs levels before behind deep nonzero stored
        complete sorted le (type, kids) spine low high =
      let (i, found, spot) =
        IsFloor-found pages (suc h) s n key kv kvs complete (type, kids) sorted le in
      let (f, at) = get_elem?-some n.entries i spot.0 in
      let r = Kids-Around pages (Holds pages h s) s n.entries i f (kv ∷ kvs) kids at in
      let (under, over, here) =
        Around-order pages (Holds pages h s) s n i f key (kv ∷ kvs) r sorted at spot in
      let live : (ptr == 0) ≡ false = ground (arith, nonzero) in
      let is_node : (n.btype == bnode_node) ≡ true = ground (arith, type) in
      let inside : Sorted ((f.key, r.kid.val) ∷ r.kid.rest) =
        subst Sorted r.kid.starts
          (Around-Sorted pages (Holds pages h s) s n.entries i f (kv ∷ kvs) r sorted) in
      let level : Spine pages h s ((n, i) ∷ levels) (before ++ r.before) r.inside
          (r.behind ++ behind) =
        (
          record {
            entry = f;
            at = at;
            complete = complete;
            left = r.before;
            right = r.behind;
            outer_before = before;
            outer_behind = behind;
            kids_left = r.kids_before;
            kid = r.kid;
            kids_right = r.kids_behind;
            is_before = refl;
            is_behind = refl;
          },
          subst (λ m. Spine pages (suc h) s levels before m behind) r.whole spine,
        ) in
      let (leaf, pos, ups, done, floor) =
        seek_loop-Floor h fuel s key f.ptr r.kid.node (f.key, r.kid.val) r.kid.rest
          ((n, i) ∷ levels) (before ++ r.before) (r.behind ++ behind) (omega arith)
          (pages.live-pos s f.ptr r.kid.alive) r.kid.stored r.kid.complete inside here
          (subst (Holds pages h s r.kid.node) r.kid.starts r.kid.holds)
          (subst
            (λ m. Spine pages h s ((n, i) ∷ levels) (before ++ r.before) m (r.behind ++ behind))
            r.kid.starts level)
          (AllBelow-join key before r.before low under)
          (AllAbove-join key r.behind behind over high) in
      (
        leaf,
        pos,
        ups,
        rw (live, stored, found, is_node, get_ptr_at n i f at) done,
        subst (Floor s key leaf pos ups)
            (ap (λ m. (before ++ r.before) ++ (m ++ (r.behind ++ behind))) (sym r.kid.starts)
              ∙ append_assoc before r.before (r.inside ++ (r.behind ++ behind))
              ∙ ap (λ m. before ++ m)
                  (ap (λ m. r.before ++ m) (sym (append_assoc r.inside r.behind behind))
                    ∙ sym (append_assoc r.before (r.inside ++ r.behind) behind)
                    ∙ ap (λ m. m ++ behind) (sym r.whole)))
            floor,
      )

  -- From the root on.
  pub seek_le-Floor :
      (h fuel root : ℕ) (s : S) (key val : Bytes) (stored : Pairs)
      → h < fuel
      → IsTree pages h root s (([], val) ∷ stored)
      → (leaf : BNode) × (pos : ℕ) × (ups : BIter) × (seek_le pages fuel root key s
          ≡ ok ((leaf, pos) ∷ ups))
        × Floor s key leaf pos ups (([], val) ∷ stored)
        × Sorted (([], val) ∷ stored)
  unfolding seek_le
  seek_le-Floor h fuel root s key val stored deep
        (tree _ _ _ n _ _ nonzero alive kept complete small sorted holds) =
      let (leaf, pos, ups, done, f) =
        seek_loop-Floor h fuel s key root n ([], val) stored [] [] [] deep nonzero kept complete
          sorted (empty_first key) holds (refl, refl) tt tt in
      (
        leaf,
        pos,
        ups,
        done,
        subst (Floor s key leaf pos ups) (ap (λ m. ([], val) ∷ m) (append-nil stored)) f,
        sorted,
      )
