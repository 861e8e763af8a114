-- ===== src/Storage/Tree/Insert.antt =====
-- BTree::insert puts a pair into the map that a tree stands for, and leaves the tree before it as it is.
use sqldb.Base.{
  ℕ, zero, suc, ◌≤◌, ◌<◌, ◌≡◌, ◌≢◌, refl, sym, ap, ◌∙◌, subst, true, false, ◌∷◌, ◌++◌, length,
  get_elem?, get_elem?-some, Bytes, lex, Ordering, some, ok, ◌==◌, arith,
}
use sqldb.Storage.SortedMap.{
  Pair, Pairs, AllAbove, AllBelow, Sorted, put, put-append, put-append_above,
}
use sqldb.Storage.Node.{
  Entry, BNode, bnode_leaf, bnode_node, btree_page_size, btree_max_key_size, btree_max_val_size,
}
use sqldb.Storage.Node.Build.{IsComplete, used}
use sqldb.Storage.Node.Lookup.{get_ptr_at}
use sqldb.Storage.PageManager.{PageManager}
use sqldb.Storage.Tree.{tree_insert, node_insert}
use sqldb.Storage.Tree.Shape.{
  Holds, Around, Kids-Around, Around-order, Around-Sorted, Extends, Extends-refl,
}
use sqldb.Storage.Tree.Parts.{node_split_if_needed-Parts}
use sqldb.Storage.Tree.Leaf.{leaf_put-Leaf}
use sqldb.Storage.Tree.Replace.{Grown, IsFloor-found, put_first, replaced}

put-Around :
    (key val : Bytes) (before : Pairs) (x : Pair) (xs behind kvs : Pairs)
    → kvs ≡ before ++ (x ∷ xs ++ behind)
    → AllBelow key before
    → AllAbove key behind
    → put key val kvs ≡ before ++ (put key val (x ∷ xs) ++ behind)
put-Around key val before x xs behind kvs whole below above =
    ap (put key val) whole
    ∙ put-append key val before (x ∷ xs ++ behind) below
    ∙ ap (λ l. before ++ l) (put-append_above key val x xs behind above)

module _ {S : Type 0} (pages : PageManager S) (key val : Bytes)
    (key_limit : length key ≤ btree_max_key_size)
    (val_limit : length val ≤ btree_max_val_size) where
  -- What tree_insert returns for a node of the given height and pairs.
  abbrev Inserted : ℕ → ℕ → S → BNode → Pairs → Type 0
  Inserted h fuel s n kvs =
      (m : BNode) × (t : S) × (tree_insert pages fuel key val s n ≡ ok (m, t))
      × Extends pages s t
      × Grown pages h t m (put key val kvs)

  -- A node above others, where the call on the child returns what it should.
  inner_step :
      (h fuel : ℕ) (s : S) (n : BNode) (i : ℕ) (f : Entry) (kvs : Pairs)
      (r : Around pages (Holds pages h s) s n.entries i f kvs)
      → IsComplete n
      → used n.entries ≤ btree_page_size
      → get_elem? n.entries i ≡ some f
      → i < length n.entries
      → AllBelow key r.before × AllAbove key r.behind × (lex f.key key ≢ Ordering.gt)
      → Inserted h fuel s r.kid.node ((f.key, r.kid.val) ∷ r.kid.rest)
      → (m : BNode) × (t : S) × (node_insert pages (tree_insert pages fuel key val) n i s
          ≡ ok (m, t))
        × Extends pages s t
        × Grown pages (suc h) t m (put key val kvs)
  unfolding node_insert
  inner_step h fuel s n i f kvs r complete small at within (below, above, le)
        (m, t, call, ext, grown) =
      let (v, rest, first) = put_first key val (f.key, r.kid.val) r.kid.rest le in
      let sp =
        node_split_if_needed-Parts pages h t m (f.key, v) rest grown.complete grown.bound
          (subst (Holds pages h t m) first grown.holds) in
      let (q, u, done, all, after) =
        replaced pages h s t n i f kvs m v rest r sp complete small at within ext in
      let eq : put key val kvs ≡ r.before ++ ((f.key, v) ∷ rest ++ r.behind) =
        put-Around key val r.before (f.key, r.kid.val) r.kid.rest r.behind kvs
          (r.whole ∙ ap (λ l. r.before ++ (l ++ r.behind)) r.kid.starts) below above
        ∙ ap (λ l. r.before ++ (l ++ r.behind)) first in
      (
        q,
        u,
        rw (get_ptr_at n i f at, r.kid.stored, call, sp.returns) done,
        all,
        subst (Grown pages (suc h) u q) (sym eq) after,
      )

  pub tree_insert-put :
      (h fuel : ℕ) (s : S) (n : BNode) (kv : Pair) (kvs : Pairs)
      → h < fuel
      → IsComplete n
      → used n.entries ≤ btree_page_size
      → Sorted (kv ∷ kvs)
      → lex kv.0 key ≢ Ordering.gt
      → Holds pages h s n (kv ∷ kvs)
      → Inserted h fuel s n (kv ∷ kvs)
  unfolding tree_insert
  tree_insert-put h zero s n kv kvs deep complete small sorted le holds = absurd (omega arith)
  tree_insert-put zero (suc fuel) s n kv kvs deep complete small sorted le holds =
      let (i, found, floor) = IsFloor-found pages zero s n key kv kvs complete holds sorted le in
      let (type, same) = holds in
      let is_leaf : (n.btype == bnode_leaf) ≡ true = ground (arith, type) in
      let (m, e, leaf) =
        leaf_put-Leaf n key val complete small key_limit val_limit pages i
          (subst Sorted (sym same) sorted) floor in
      (
        m,
        s,
        rw (tree_insert, is_leaf, found, e) refl,
        Extends-refl pages s,
        record {
          complete = leaf.complete;
          bound = leaf.bound;
          holds = (leaf.is_leaf, leaf.same ∙ ap (put key val) same);
        },
      )
  tree_insert-put (suc h) (suc fuel) s n kv kvs deep complete small sorted le holds =
      let (i, found, floor) = IsFloor-found pages (suc h) s n key kv kvs complete holds sorted le in
      let (type, kids) = holds in
      let is_node : ((n.btype == bnode_leaf) ≡ false) × ((n.btype == bnode_node) ≡ true) =
        ground (arith, type) in
      let (f, at) = get_elem?-some n.entries i floor.0 in
      let r = Kids-Around pages (Holds pages h s) s n.entries i f (kv ∷ kvs) kids at in
      let order = Around-order pages (Holds pages h s) s n i f key (kv ∷ kvs) r sorted at floor in
      let inside = Around-Sorted pages (Holds pages h s) s n.entries i f (kv ∷ kvs) r sorted in
      let deeper =
        tree_insert-put h fuel s r.kid.node (f.key, r.kid.val) r.kid.rest (omega arith)
          r.kid.complete r.kid.small (subst Sorted r.kid.starts inside) order.2
          (subst (Holds pages h s r.kid.node) r.kid.starts r.kid.holds) in
      let (m, t, done, ext, grown) =
        inner_step h fuel s n i f (kv ∷ kvs) r complete small at floor.0 order deeper in
      (m, t, rw (tree_insert, is_node.0, is_node.1, found) done, ext, grown)
