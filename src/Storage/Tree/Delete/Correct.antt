-- ===== src/Storage/Tree/Delete/Correct.antt =====
-- BTree::remove takes the pair with a key out of the map that a tree stands for.
use sqldb.Base.{
  ℕ, zero, suc, ◌+◌, ◌-◌, ◌≤◌, ◌<◌, ◌≡◌, ◌≢◌, refl, sym, ap, ◌∙◌, subst, true, false, ◌&&◌, List,
  [], ◌∷◌, ◌++◌, append-nil, length, take, drop, get_elem?, get_elem?-some, Bytes, bytes_eq,
  bytes_eq_iff, lex, lex_refl, lex_swap, Ordering, Option, none, some, Result, ok, stop, asserted,
  ◌>>=◌, ◌==◌, if◌then◌else◌, Bool-cases, inl, inr, ◌⊎◌, arith,
}
use sqldb.Storage.SortedMap.{
  Pair, Pairs, AllAbove, AllBelow, Sorted, find, find-append, find-append_above, find_above, erase,
}
use sqldb.Storage.SortedMap.Erase.{erase-append, erase-append_above, erase-Sorted}
use sqldb.Storage.Node.{Entry, BNode, offset, bnode_leaf, bnode_node, btree_page_size}
use sqldb.Storage.Node.Build.{
  IsComplete, used, splice, build-ok, length-splice, offset-splice, All-splice, leaf_delete-pieces,
}
use sqldb.Storage.Node.Lookup.{pairs, IsFloor, get_key_at, get_ptr_at}
use sqldb.Storage.PageManager.{PageManager}
use sqldb.Storage.Tree.{check_key_limit}
use sqldb.Storage.Tree.Shape.{
  Kids, Holds, Around, Kids-Around, Around-order, Around-Sorted, Holds-Extends, Extends,
  Extends-refl, Extends-trans,
}
use sqldb.Storage.Tree.Get.{IsTree, empty_tree, tree, entries_at, leaf_order, find_floor}
use sqldb.Storage.Tree.Leaf.{pairs-splice}
use sqldb.Storage.Tree.Replace.{IsFloor-found}
use sqldb.Storage.Tree.Versions.{new_root, nonempty_above, check_key_limit-nonempty}
use sqldb.Storage.Tree.Delete.{leaf_erase, node_delete, tree_delete, remove_found}
use sqldb.Storage.Tree.Delete
use sqldb.Storage.Tree.Delete.Relink.{Shrunk, IsNearlyFull, relink-Relinked}
use sqldb.Storage.Tree.Delete.Siblings.{should_merge-Side}

erase-Around :
    (key : Bytes) (before inside behind kvs : Pairs)
    → kvs ≡ before ++ (inside ++ behind)
    → AllBelow key before
    → AllAbove key behind
    → (erase key kvs ≡ before ++ (erase key inside ++ behind)) × (find key kvs ≡ find key inside)
erase-Around key before inside behind kvs whole below above = (
  ap (erase key) whole
      ∙ erase-append key before (inside ++ behind) below
      ∙ ap (λ l. before ++ l) (erase-append_above key inside behind above),
  ap (find key) whole
      ∙ find-append key before (inside ++ behind) below
      ∙ find-append_above key inside behind above,
)

module _ {S : Type 0} (pages : PageManager S) where
  -- A page in use holds an inner node that has less room left than the longest key takes.
  abbrev pub Crowded : S → Type 0
  Crowded s =
      (p : ℕ) × (n : BNode) × pages.live s p
      × (pages.get s p ≡ ok n)
      × (n.btype ≡ bnode_node)
      × IsNearlyFull n

  -- How a deletion ends: at an assertion, for want of room, without the key, or with a node of the other pairs.
  pub data Deletion (key : Bytes) (h : ℕ) (s : S) (kvs : Pairs)
      (result : Result (Option (BNode × S))) : Type 0 where
    overflows : Crowded s → result ≡ stop asserted → Deletion key h s kvs result
    missing : result ≡ ok none → find key kvs ≡ none → Deletion key h s kvs result
    taken :
        (m : BNode) (t : S)
        → result ≡ ok (some (m, t))
        → find key kvs ≢ none
        → Extends pages s t
        → Shrunk pages h t m (erase key kvs)
        → Deletion key h s kvs result

  -- The leaf case.
  leaf_taken :
      (key : Bytes) (s : S) (n : BNode) (i : ℕ)
      → IsComplete n
      → used n.entries ≤ btree_page_size
      → Sorted (pairs n.entries)
      → n.btype ≡ bnode_leaf
      → IsFloor n key (some i)
      → Deletion key 0 s
          (pairs n.entries)
          (leaf_erase pages n (some i) key >>= λ m. ok (Delete.with_pages pages s m))
  unfolding leaf_erase offset erase
  leaf_taken key s n i complete small sorted type floor =
      let (f, at) = get_elem?-some n.entries i floor.0 in
      let (below, above, le) = leaf_order n i f key sorted at floor in
      let next : i + 1 ≡ suc i = omega arith in
      let whole = entries_at n.entries i f at in
      let found : find key (pairs n.entries) ≡ (if bytes_eq f.key key then some f.val else none) =
        ap (find key) whole
        ∙ find-append key (pairs (take i n.entries)) _ below
        ∙ find_floor key f (pairs (drop (suc i) n.entries)) above le in
      elim (Bool-cases (bytes_eq f.key key)) [
        | inr other ↦ missing (rw (get_key_at n i f at, other) refl) (found ∙ rw other refl)
        | inl same ↦
            let es = splice n.entries i [] (i + 1) in
            let lengths =
              length-splice n.entries [] i (i + 1) (omega arith) (omega (arith, floor.0)) in
            let counted : n.nkeys - 1 ≡ length es = omega (arith, lengths, complete.counted) in
            let fits = All-splice n.entries [] i (i + 1) complete.fitting tt in
            let room : used es ≤ btree_page_size =
              omega (arith, small, lengths, offset-splice n.entries [] i (i + 1) (omega arith)) in
            let built =
              build-ok btree_page_size bnode_leaf (n.nkeys - 1) es (omega arith) fits counted
                room in
            let here : erase key ((f.key, f.val) ∷ pairs (drop (suc i) n.entries))
                ≡ pairs (drop (i + 1) n.entries) =
              ground (arith, bytes_eq_iff f.key key, lex_refl key, next) in
            let left : erase key (pairs n.entries) ≡ pairs es =
              ap (erase key) whole
              ∙ erase-append key (pairs (take i n.entries)) _ below
              ∙ ap (λ l. pairs (take i n.entries) ++ l) here
              ∙ sym (pairs-splice n.entries [] i (i + 1)) in
            taken _ s
              (rw
                (get_key_at n i f at, same, leaf_delete-pieces btree_page_size n complete i, built)
                refl)
              (λ e. ground (arith, e, found, same)) (Extends-refl pages s)
              (record {
                complete = record { counted = counted; fitting = fits };
                small = room;
                holds = (refl, sym left);
              })
      ]

  -- A node above others, where the deletion from the child ends as it should.
  inner_taken :
      (key : Bytes) (h fuel : ℕ) (s : S) (n : BNode) (i : ℕ) (f : Entry) (kvs : Pairs)
      (r : Around pages (Holds pages h s) s n.entries i f kvs) (p : ℕ)
      → pages.live s p
      → pages.get s p ≡ ok n
      → n.btype ≡ bnode_node
      → IsComplete n
      → used n.entries ≤ btree_page_size
      → get_elem? n.entries i ≡ some f
      → i < length n.entries
      → AllBelow key r.before × AllAbove key r.behind × (lex f.key key ≢ Ordering.gt)
      → Deletion key h s r.inside (tree_delete pages fuel key s r.kid.node)
      → Deletion key (suc h) s kvs (node_delete pages (tree_delete pages fuel key) n i s)
  unfolding node_delete
  inner_taken key h fuel s n i f kvs r p alive stored type complete small at within
        (below, above, le) (overflows crowded e) =
      overflows crowded (rw (get_ptr_at n i f at, r.kid.stored, e) refl)
  inner_taken key h fuel s n i f kvs r p alive stored type complete small at within
        (below, above, le) (missing e none_there) =
      missing (rw (get_ptr_at n i f at, r.kid.stored, e) refl)
        ((erase-Around key r.before r.inside r.behind kvs r.whole below above).1 ∙ none_there)
  inner_taken key h fuel s n i f kvs r p alive stored type complete small at within
        (below, above, le) (taken m t e there ext shrunk) =
      let t' = pages.del t f.ptr in
      let out = Extends-trans pages s t t' ext (pages.del-keeps t f.ptr) in
      let (whole, found) = erase-Around key r.before r.inside r.behind kvs r.whole below above in
      let shrunk' : Shrunk pages h t' m (erase key r.inside) = record {
        complete = shrunk.complete;
        small = shrunk.small;
        holds =
            Holds-Extends pages h t t' m (erase key r.inside) (pages.del-keeps t f.ptr)
              shrunk.holds;
      } in
      let (side, chosen, sound) =
        should_merge-Side pages h s t' out n m complete shrunk.complete shrunk.small i f kvs r
          within in
      elim (relink-Relinked pages h s t' out n m complete small i f kvs (erase key r.inside) r
        within shrunk' side sound) [
          | inl (near, full) ↦
              overflows (p, n, alive, stored, type, near)
                (rw (get_ptr_at n i f at, r.kid.stored, e, get_ptr_at n i f at, chosen, full) refl)
          | inr (q, u, done, all, left) ↦
              taken q u
                (rw (get_ptr_at n i f at, r.kid.stored, e, get_ptr_at n i f at, chosen, done) refl)
                (λ none_there. there (sym found ∙ none_there)) all
                (subst (Shrunk pages (suc h) u q) (sym whole) left)
        ]

  tree_delete-Deletion :
      (key : Bytes) (h fuel : ℕ) (s : S) (n : BNode) (kv : Pair) (kvs : Pairs) (p : ℕ)
      → pages.live s p
      → pages.get s p ≡ ok n
      → h < fuel
      → IsComplete n
      → used n.entries ≤ btree_page_size
      → Sorted (kv ∷ kvs)
      → lex kv.0 key ≢ Ordering.gt
      → Holds pages h s n (kv ∷ kvs)
      → Deletion key h s (kv ∷ kvs) (tree_delete pages fuel key s n)
  unfolding tree_delete
  tree_delete-Deletion key h zero s n kv kvs p alive stored deep complete small sorted le holds =
      absurd (omega arith)
  tree_delete-Deletion key zero (suc fuel) s n kv kvs p alive stored deep complete small sorted le
        (type, same) =
      let (i, found, floor) =
        IsFloor-found pages zero s n key kv kvs complete (type, same) sorted le in
      let is_leaf : (n.btype == bnode_leaf) ≡ true = ground (arith, type) in
      let leaf = leaf_taken key s n i complete small (subst Sorted (sym same) sorted) type floor in
      rw (is_leaf, found)
        (subst
          (λ l.
            Deletion key zero s l
              (leaf_erase pages n (some i) key >>= λ m. ok (Delete.with_pages pages s m)))
          same leaf)
  tree_delete-Deletion key (suc h) (suc fuel) s n kv kvs p alive stored deep complete small sorted
        le (type, kids) =
      let (i, found, floor) =
        IsFloor-found pages (suc h) s n key kv kvs complete (type, kids) sorted le in
      let is_node : ((n.btype == bnode_leaf) ≡ false) × ((n.btype == bnode_node) ≡ true) =
        ground (arith, type) in
      let (f, at) = get_elem?-some n.entries i floor.0 in
      let r = Kids-Around pages (Holds pages h s) s n.entries i f (kv ∷ kvs) kids at in
      let order = Around-order pages (Holds pages h s) s n i f key (kv ∷ kvs) r sorted at floor in
      let inside = Around-Sorted pages (Holds pages h s) s n.entries i f (kv ∷ kvs) r sorted in
      let deeper =
        tree_delete-Deletion key h fuel s r.kid.node (f.key, r.kid.val) r.kid.rest f.ptr r.kid.alive
          r.kid.stored (omega arith) r.kid.complete r.kid.small (subst Sorted r.kid.starts inside)
          order.2 (subst (Holds pages h s r.kid.node) r.kid.starts r.kid.holds) in
      rw (is_node.0, is_node.1, found)
        (inner_taken key h fuel s n i f (kv ∷ kvs) r p alive stored type complete small at floor.0
          order
          (subst (λ l. Deletion key h s l (tree_delete pages fuel key s r.kid.node))
            (sym r.kid.starts) deeper))

  -- The root behind a deletion: the node in a new page, or its only child.
  only_child :
      (h : ℕ) (s : S) (es : List Entry) (val : Bytes) (kvs : Pairs)
      → length es ≡ 1
      → Sorted (([], val) ∷ kvs)
      → Kids pages (Holds pages h s) s es (([], val) ∷ kvs)
      → (e : Entry) × (get_elem? es 0 ≡ some e) × IsTree pages h e.ptr s (([], val) ∷ kvs)
  only_child h s [] val kvs one sorted kids = absurd (omega arith)
  only_child h s (e ∷ f ∷ es) val kvs one sorted kids = absurd (omega arith)
  only_child h s (e ∷ []) val kvs one sorted (xs, ys, c, rest, eq) =
      let all : ([], val) ∷ kvs ≡ xs = eq ∙ ap (λ l. xs ++ l) rest ∙ append-nil xs in
      (
        e,
        refl,
        tree h e.ptr s c.node val kvs (pages.live-pos s e.ptr c.alive) c.alive c.stored c.complete
            c.small sorted (subst (Holds pages h s c.node) (sym all) c.holds),
      )

  Shrunk-root :
      (h root : ℕ) (s : S) (m : BNode) (val : Bytes) (kvs : Pairs)
      → Shrunk pages h s m (([], val) ∷ kvs)
      → Sorted (([], val) ∷ kvs)
      → (h' : ℕ) × (root' : ℕ) × (t : S) × (remove_found pages (some (m, s)) root ≡ some (root', t))
        × IsTree pages h' root' t (([], val) ∷ kvs)
        × (h' ≤ h)
        × Extends pages s t
  unfolding remove_found
  Shrunk-root h root s m val kvs shrunk sorted =
      let t = pages.del s root in
      let holds =
        Holds-Extends pages h s t m (([], val) ∷ kvs) (pages.del-keeps s root) shrunk.holds in
      let in_page = new_root pages h t m val kvs shrunk.complete shrunk.small sorted holds in
      let keeps =
        Extends-trans pages s t (pages.new_page t m).1 (pages.del-keeps s root)
          (pages.new_page-keeps t m) in
      elim (Bool-cases ((m.btype == bnode_node) && (m.nkeys == 1))) [
        | inr other ↦ (h, _, _, rw other refl, in_page, omega arith, keeps)
        | inl only ↦ lower h holds only
      ]
    where
      lower :
          (h : ℕ)
          → Holds pages h (pages.del s root) m (([], val) ∷ kvs)
          → ((m.btype == bnode_node) && (m.nkeys == 1)) ≡ true
          → (h' : ℕ) × (root' : ℕ) × (t : S) × (remove_found pages (some (m, s)) root
              ≡ some (root', t))
            × IsTree pages h' root' t (([], val) ∷ kvs)
            × (h' ≤ h)
            × Extends pages s t
      lower zero (type, same) only = absurd (ground (arith, type, only))
      lower (suc h) (type, kids) only =
          let one : length m.entries ≡ 1 = ground (arith, only, shrunk.complete.counted) in
          let (e, at, child) = only_child h (pages.del s root) m.entries val kvs one sorted kids in
          (
            h,
            e.ptr,
            pages.del s root,
            rw (only, get_ptr_at m 0 e at) refl,
            child,
            omega arith,
            pages.del-keeps s root,
          )

  -- BTree::remove, for every key within the limits and fuel beyond the height, ends in one of three ways:
  -- at an assertion, where a page in use holds an inner node with less room left than the longest key takes;
  -- without a pair under the key, changing nothing; or with a tree
  -- of the other pairs, no higher, beside which every page that was in use is as it was.
  pub remove-erase :
      (h fuel root : ℕ) (s : S) (key : Bytes) (kvs : Pairs)
      → h < fuel
      → IsTree pages h root s kvs
      → check_key_limit key ≡ ok tt
      → ((Crowded s × (Delete.remove pages fuel root key s ≡ stop asserted))
          ⊎ ((Delete.remove pages fuel root key s ≡ ok none) × (find key kvs ≡ none)))
        ⊎ ((h' : ℕ) × (root' : ℕ) × (t : S) × (Delete.remove pages fuel root key s
              ≡ ok (some (root', t)))
            × (find key kvs ≢ none)
            × IsTree pages h' root' t (erase key kvs)
            × (h' ≤ h)
            × Extends pages s t)
  unfolding Delete.remove erase remove_found
  remove-erase h fuel root s key kvs deep (empty_tree _ _) limit =
      inl (inr (rw limit refl, find_above key [] tt))
  remove-erase h fuel root s key kvs deep
        (tree _ _ _ n v rest nonzero alive stored complete small sorted holds) limit =
      let above = nonempty_above key (check_key_limit-nonempty key limit) in
      let not_above : lex [] key ≢ Ordering.gt = ground (arith, above) in
      let nonempty : (root == 0) ≡ false = ground (arith, nonzero) in
      let behind : lex key [] ≡ Ordering.gt = ground (arith, above, lex_swap [] key) in
      let kept : erase key (([], v) ∷ rest) ≡ ([], v) ∷ erase key rest = rw (erase, behind) refl in
      elim (tree_delete-Deletion key h fuel s n ([], v) rest root alive stored deep complete small
        sorted not_above holds) [
          | overflows crowded e ↦ inl (inl (crowded, rw (limit, nonempty, stored, e) refl))
          | missing e none_there ↦ inl (inr (rw (limit, nonempty, stored, e) refl, none_there))
          | taken m t e there ext shrunk ↦
              let (h', root', u, done, is_tree, low, more) =
                Shrunk-root h root t m v (erase key rest) (subst (Shrunk pages h t m) kept shrunk)
                  (subst Sorted kept (erase-Sorted key (([], v) ∷ rest) sorted)) in
              inr (
                h',
                root',
                u,
                rw (limit, nonempty, stored, e, done) refl,
                there,
                subst (IsTree pages h' root' u) (sym kept) is_tree,
                low,
                Extends-trans pages s t u ext more,
              )
        ]
