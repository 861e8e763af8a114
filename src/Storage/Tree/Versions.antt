-- ===== src/Storage/Tree/Versions.antt =====
-- The trees before and after BTree::insert: the root that it returns, and the root that it was given.
use sqldb.Base.{
  ℕ, suc, ◌+◌, ◌≤◌, ◌<◌, ◌≡◌, ◌≢◌, refl, sym, ap, ◌∙◌, subst, false, List, [], ◌∷◌, ◌++◌,
  append-nil, length, Bytes, lex, lex_swap, Ordering, some, Result, ok, ◌>>=◌, ◌==◌, All, arith,
}
use sqldb.Storage.SortedMap.{Pairs, Sorted, put, put-Sorted, find, find-put_self, find-put_ne}
use sqldb.Storage.Node.{
  Entry, BNode, offset, set_header, node_append_kv, bnode_leaf, bnode_node, btree_page_size,
  btree_max_key_size, btree_max_val_size,
}
use sqldb.Storage.Node.Build.{Fits, IsComplete, used, build-ok}
use sqldb.Storage.Node.Lookup.{pairs}
use sqldb.Storage.PageManager.{PageManager}
use sqldb.Storage.Tree.{check_limit, check_key_limit, new_level, first_root, put_root}
use sqldb.Storage.Tree
use sqldb.Storage.Tree.Shape.{Holds, Holds-Extends, Extends, Extends-trans}
use sqldb.Storage.Tree.Parts.{Parts, node_split_if_needed-Parts}
use sqldb.Storage.Tree.Links.{links, length-links, links-Kids, beside, append_children-links}
use sqldb.Storage.Tree.Replace.{put_first, links-Fits, offset-links}
use sqldb.Storage.Tree.Insert.{tree_insert-put}
use sqldb.Storage.Tree.Get.{IsTree, empty_tree, tree, get-find}

-- The pairs of a tree once it has a root: the empty key is the first.
abbrev pub rooted : Pairs → Pairs
rooted [] = ([], []) ∷ []
rooted (kv ∷ kvs) = kv ∷ kvs

check_limit-bounds :
    (key val : Bytes)
    → check_limit key val ≡ ok tt
    → (0 < length key) × (length key ≤ btree_max_key_size) × (length val ≤ btree_max_val_size)
unfolding check_limit check_key_limit
check_limit-bounds key val limit = ground (arith, limit)

pub check_limit-key : (key val : Bytes) → check_limit key val ≡ ok tt → check_key_limit key ≡ ok tt
unfolding check_limit check_key_limit
check_limit-key key val limit = ground (arith, limit)

pub check_key_limit-nonempty : (key : Bytes) → check_key_limit key ≡ ok tt → 0 < length key
unfolding check_key_limit
check_key_limit-nonempty key limit = ground (arith, limit)

pub nonempty_above : (key : Bytes) → 0 < length key → lex [] key ≡ Ordering.lt
unfolding lex
nonempty_above [] h = absurd (omega arith)
nonempty_above (b ∷ key) h = refl

module _ {S : Type 0} (pages : PageManager S) where
  -- A tree stays while the pages grow.
  pub IsTree-Extends :
      (h root : ℕ) (s t : S) (kvs : Pairs)
      → Extends pages s t
      → IsTree pages h root s kvs
      → IsTree pages h root t kvs
  IsTree-Extends h root s t kvs ext (empty_tree _ _) = empty_tree h t
  IsTree-Extends h root s t kvs ext
        (tree _ _ _ n val rest nonzero alive stored complete small sorted holds) =
      tree h root t n val rest nonzero (ext root alive).0 ((ext root alive).1 ∙ stored) complete
        small sorted (Holds-Extends pages h s t n (([], val) ∷ rest) ext holds)

  -- A node in a new page is the root of a tree.
  pub new_root :
      (h : ℕ) (s : S) (n : BNode) (val : Bytes) (kvs : Pairs)
      → IsComplete n
      → used n.entries ≤ btree_page_size
      → Sorted (([], val) ∷ kvs)
      → Holds pages h s n (([], val) ∷ kvs)
      → IsTree pages h (pages.new_page s n).0 (pages.new_page s n).1 (([], val) ∷ kvs)
  new_root h s n val kvs complete small sorted holds =
      tree h (pages.new_page s n).0 (pages.new_page s n).1 n val kvs
        (pages.live-pos (pages.new_page s n).1 (pages.new_page s n).0 (pages.new_page-live s n))
        (pages.new_page-live s n) (pages.get-new_page s n complete small) complete small sorted
        (Holds-Extends pages h s (pages.new_page s n).1 n (([], val) ∷ kvs)
          (pages.new_page-keeps s n) holds)

  -- What an insertion returns: a tree of the pairs, at most a level higher, beside all that was there.
  abbrev Updated : ℕ → S → Pairs → Result (ℕ × S) → Type 0
  Updated h s kvs result =
      (h' : ℕ) × (root : ℕ) × (t : S) × (result ≡ ok (root, t))
      × IsTree pages h' root t kvs
      × (h' ≤ h + 1)
      × Extends pages s t

  root_of :
      (h : ℕ) (s t : S) (n : BNode) (ns : List BNode) (val : Bytes) (kvs : Pairs)
      → Extends pages s t
      → length ns ≤ 1
      → Sorted (([], val) ∷ kvs)
      → Parts (Holds pages h s) (n ∷ ns) (([], val) ∷ kvs)
      → Updated h s (([], val) ∷ kvs) (put_root pages (n ∷ ns) t)
  unfolding put_root new_level
  root_of h s t n [] val kvs ext few sorted (xs, ys, part, none_left, eq) =
      let all = eq ∙ ap (λ l. xs ++ l) none_left ∙ append-nil xs in
      let holds =
        Holds-Extends pages h s t n (([], val) ∷ kvs) ext
          (subst (Holds pages h s n) (sym all) part.holds) in
      (
        h,
        (pages.new_page t n).0,
        (pages.new_page t n).1,
        refl,
        new_root h t n val kvs part.complete part.small sorted holds,
        omega arith,
        Extends-trans pages s t (pages.new_page t n).1 ext (pages.new_page-keeps t n),
      )
  root_of h s t n (m ∷ ms) val kvs ext few sorted parts =
      let ns = n ∷ m ∷ ms in
      let es = (links pages ns t).0 in
      let u = (links pages ns t).1 in
      let (kids, all) = links-Kids pages h ns s t (([], val) ∷ kvs) ext parts in
      let counted : length ns ≡ length es = sym (length-links pages ns t) in
      let fits = links-Fits pages (Holds pages h s) ns t (([], val) ∷ kvs) parts in
      let small : used es ≤ btree_page_size =
        omega (
          arith,
          few,
          counted,
          offset-links pages (Holds pages h s) ns t (([], val) ∷ kvs) parts,
        ) in
      let built =
        build-ok btree_page_size bnode_node (length ns) es (omega arith) fits counted small in
      let root : BNode = record { btype = bnode_node; nkeys = length ns; entries = es } in
      let linked =
        append_children-links pages btree_page_size ns (set_header bnode_node (length ns)) t
        ∙ ap (λ b. b >>= beside pages u) built in
      (
        suc h,
        (pages.new_page u root).0,
        (pages.new_page u root).1,
        rw linked refl,
        new_root (suc h) u root val kvs (record { counted = counted; fitting = fits }) small sorted
            (refl, kids),
        omega arith,
        Extends-trans pages s u (pages.new_page u root).1 all (pages.new_page-keeps u root),
      )

  first_root-Leaf :
      (key val : Bytes)
      → length key ≤ btree_max_key_size
      → length val ≤ btree_max_val_size
      → (n : BNode) × (first_root pages key val ≡ ok n)
        × IsComplete n
        × (used n.entries ≤ btree_page_size)
        × (n.btype ≡ bnode_leaf)
        × (pairs n.entries ≡ ([], []) ∷ (key, val) ∷ [])
  unfolding first_root node_append_kv offset
  first_root-Leaf key val key_limit val_limit =
      let es : List Entry =
        record { ptr = 0; key = []; val = [] } ∷ record { ptr = 0; key = key; val = val } ∷ [] in
      let fits : All Fits es = ((omega arith, omega arith), ((key_limit, val_limit), tt)) in
      (
        record { btype = bnode_leaf; nkeys = 2; entries = es },
        ground (arith, key_limit, val_limit),
        record { counted = refl; fitting = fits },
        omega arith,
        refl,
        refl,
      )

  -- BTree::insert within the limits returns a tree of the pairs with the new one put among them, for fuel
  -- beyond the height of the tree. The new tree is a level higher at most, and every page that was in use
  -- is in use and as it was.
  pub insert-put :
      (h fuel root : ℕ) (s : S) (key val : Bytes) (kvs : Pairs)
      → h < fuel
      → IsTree pages h root s kvs
      → check_limit key val ≡ ok tt
      → (h' : ℕ) × (root' : ℕ) × (t : S) × (Tree.insert pages fuel root key val s ≡ ok (root', t))
        × IsTree pages h' root' t (put key val (rooted kvs))
        × (h' ≤ h + 1)
        × Extends pages s t
  unfolding Tree.insert put
  insert-put h fuel root s key val kvs deep (empty_tree _ _) limit =
      let (some_bytes, key_limit, val_limit) = check_limit-bounds key val limit in
      let above = nonempty_above key some_bytes in
      let above' : lex key [] ≡ Ordering.gt = ground (arith, above, lex_swap [] key) in
      let (n, made, complete, small, type, same) = first_root-Leaf key val key_limit val_limit in
      (
        0,
        (pages.new_page s n).0,
        (pages.new_page s n).1,
        rw (limit, made) refl,
        rw (put, above')
            (new_root 0 s n [] ((key, val) ∷ []) complete small ((above, tt), (tt, tt))
              (type, same)),
        omega arith,
        pages.new_page-keeps s n,
      )
  insert-put h fuel root s key val kvs deep
        (tree _ _ _ n v rest nonzero alive stored complete small sorted holds) limit =
      let (some_bytes, key_limit, val_limit) = check_limit-bounds key val limit in
      let not_above : lex [] key ≢ Ordering.gt = ground (arith, nonempty_above key some_bytes) in
      let nonempty : (root == 0) ≡ false = ground (arith, nonzero) in
      let (m, t, call, ext, grown) =
        tree_insert-put pages key val key_limit val_limit h fuel s n ([], v) rest deep complete
          small sorted not_above holds in
      let (v', rest', first) = put_first key val ([], v) rest not_above in
      let sp =
        node_split_if_needed-Parts pages h t m ([], v') rest' grown.complete grown.bound
          (subst (Holds pages h t m) first grown.holds) in
      let order = subst Sorted first (put-Sorted key val (([], v) ∷ rest) sorted) in
      let (h', root', u, done, is_tree, height, all) =
        root_of h t (pages.del t root) sp.head sp.more v' rest' (pages.del-keeps t root) sp.few
          order sp.parts in
      (
        h',
        root',
        u,
        rw (limit, nonempty, stored, call, sp.returns) done,
        subst (IsTree pages h' root' u) (sym first) is_tree,
        height,
        Extends-trans pages s t u ext all,
      )

  find-rooted : (key : Bytes) (kvs : Pairs) → 0 < length key → find key (rooted kvs) ≡ find key kvs
  unfolding find
  find-rooted key [] h = ground (arith, lex_swap [] key, nonempty_above key h)
  find-rooted key (kv ∷ kvs) h = refl

  -- Behind an insertion BTree::get finds the value at the new root under its key, and under every other
  -- key what it found before; at the old root it finds under every key what it found before. This holds
  -- for keys and values within the limits, with fuel for a level more than the tree had.
  pub get-insert :
      (h fuel root : ℕ) (s : S) (key val other : Bytes) (kvs : Pairs)
      → h + 1 < fuel
      → IsTree pages h root s kvs
      → check_limit key val ≡ ok tt
      → check_key_limit other ≡ ok tt
      → (root' : ℕ) × (t : S) × (Tree.insert pages fuel root key val s ≡ ok (root', t))
        × (Tree.get pages fuel root' key t ≡ ok (some val))
        × (other ≢ key → Tree.get pages fuel root' other t ≡ Tree.get pages fuel root other s)
        × (Tree.get pages fuel root other t ≡ Tree.get pages fuel root other s)
  get-insert h fuel root s key val other kvs deep is_tree limit other_limit =
      let (h', root', t, done, grown, height, ext) =
        insert-put h fuel root s key val kvs (omega arith) is_tree limit in
      let before = get-find pages h fuel root s other kvs (omega arith) is_tree other_limit in
      let found = λ (k : Bytes) (kl : check_key_limit k ≡ ok tt).
        get-find pages h' fuel root' t k (put key val (rooted kvs)) (omega arith) grown kl in
      (
        root',
        t,
        done,
        found key (check_limit-key key val limit) ∙ ap ok (find-put_self key val (rooted kvs)),
        λ ne.
            found other other_limit
            ∙ ap ok (
                find-put_ne other key val (rooted kvs) ne
                ∙ find-rooted other kvs (check_key_limit-nonempty other other_limit))
            ∙ sym before,
        get-find pages h fuel root t other kvs (omega arith)
              (IsTree-Extends h root s t kvs ext is_tree) other_limit
            ∙ sym before,
      )
