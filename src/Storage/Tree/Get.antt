-- ===== src/Storage/Tree/Get.antt =====
-- BTree::get finds what the tree stands for.
use sqldb.Base.{
  ℕ, zero, suc, ◌≤◌, ◌<◌, ◌≡◌, ◌≢◌, refl, sym, ap, ◌∙◌, subst, true, false, List, [], ◌∷◌, ◌++◌,
  none, some, get_elem?, get_elem?-some, get_elem?-drop, get_elem?-lt, take, drop, Bytes, bytes_eq,
  bytes_eq_iff, lex, lex_refl, lex-eq, lex_swap, Ordering, ok, ◌==◌, if◌then◌else◌, Option-cases,
  inl, inr, arith,
}
use sqldb.Storage.SortedMap.{
  Pairs, Less, AllAbove, AllBelow, Sorted, Sorted-append, Sorted-below, AllBelow-le, AllAbove-trans,
  find, find-append, find_above, find-append_above,
}
use sqldb.Storage.Node.{Entry, BNode, node_lookup_le, bnode_leaf, btree_page_size}
use sqldb.Storage.Node.Build.{IsComplete, used}
use sqldb.Storage.Node.Lookup.{
  pairs, IsFloor, get_key_at, get_val_at, get_ptr_at, node_lookup_le-IsFloor,
}
use sqldb.Storage.PageManager.{PageManager}
use sqldb.Storage.Tree.{get_loop, is_at, check_key_limit}
use sqldb.Storage.Tree
use sqldb.Storage.Tree.Shape.{
  Holds, Kids-Around, Around-order, Around-Sorted, Kids-Sorted, Kids-below,
}

-- The entries before, at and behind an index.
pub entries_at :
    (es : List Entry) (i : ℕ) (e : Entry)
    → get_elem? es i ≡ some e
    → pairs es ≡ pairs (take i es) ++ (e.key, e.val) ∷ pairs (drop (suc i) es)
entries_at [] i e at = cc
entries_at (f ∷ es) zero e at = ground (arith, at)
entries_at (f ∷ es) (suc i) e at = ap (λ l. (f.key, f.val) ∷ l) (entries_at es i e at)

pub floor_below :
    (key : Bytes) (es : List Entry)
    → Sorted (pairs es)
    → ((e : Entry) → get_elem? es 0 ≡ some e → Less key e.key)
    → AllAbove key (pairs es)
floor_below key [] sorted first = tt
floor_below key (e ∷ es) sorted first =
    (first e refl, AllAbove-trans key e.key (pairs es) (first e refl) sorted.0)

-- A key that node_lookup_le sends to an entry of a leaf belongs there or right behind it.
pub leaf_order :
    (n : BNode) (i : ℕ) (e : Entry) (key : Bytes)
    → Sorted (pairs n.entries)
    → get_elem? n.entries i ≡ some e
    → IsFloor n key (some i)
    → AllBelow key (pairs (take i n.entries))
      × AllAbove key (pairs (drop (suc i) n.entries))
      × (lex e.key key ≢ Ordering.gt)
leaf_order n i e key sorted at (within, below, above) =
    let not_above : lex e.key key ≢ Ordering.gt =
      subst (λ k. lex k key ≢ Ordering.gt) (get_key_at n i e at) below in
    let order = subst Sorted (entries_at n.entries i e at) sorted in
    let later =
      Sorted-append (pairs (take i n.entries)) ((e.key, e.val) ∷ pairs (drop (suc i) n.entries))
        order in
    (
      AllBelow-le e.key key (pairs (take i n.entries))
          (Sorted-below (pairs (take i n.entries)) (e.key, e.val) (pairs (drop (suc i) n.entries))
            order)
          not_above,
      floor_below key (drop (suc i) n.entries) later.1.1 (λ g f.
          let there : get_elem? n.entries (suc i) ≡ some g =
            sym (get_elem?-drop (suc i) n.entries) ∙ f in
          subst (Less key) (get_key_at n (suc i) g there)
            (above (suc i) (omega arith) (get_elem?-lt n.entries (suc i) g there))),
      not_above,
    )

-- A key that is below the first entry is below all.
pub none_order :
    (n : BNode) (key : Bytes)
    → Sorted (pairs n.entries)
    → IsFloor n key none
    → (e : Entry) → get_elem? n.entries 0 ≡ some e
    → Less key e.key
none_order n key sorted above e at =
    subst (Less key) (get_key_at n 0 e at) (above 0 (get_elem?-lt n.entries 0 e at))

-- The pair at the floor decides whether a key is there.
pub find_floor :
    (key : Bytes) (e : Entry) (ys : Pairs)
    → AllAbove key ys
    → lex e.key key ≢ Ordering.gt
    → find key ((e.key, e.val) ∷ ys) ≡ (if bytes_eq e.key key then some e.val else none)
unfolding find
find_floor key e ys h le = ground (
  arith,
  le,
  find_above key ys h,
  lex_swap key e.key,
  bytes_eq_iff e.key key,
  lex-eq e.key key,
  lex_refl key,
)

module _ {S : Type 0} (pages : PageManager S) where
  pub get_loop-find :
      (h fuel : ℕ) (s : S) (key : Bytes) (n : BNode) (kvs : Pairs)
      → h < fuel
      → IsComplete n
      → Sorted kvs
      → Holds pages h s n kvs
      → get_loop pages fuel key s n ≡ ok (find key kvs)
  unfolding get_loop
  get_loop-find h zero s key n kvs deep complete sorted holds = absurd (omega arith)
  get_loop-find zero (suc fuel) s key n kvs deep complete sorted (type, same) =
      let order : Sorted (pairs n.entries) = subst Sorted (sym same) sorted in
      let floor = node_lookup_le-IsFloor n key complete.counted order in
      let leaf : (n.btype == bnode_leaf) ≡ true = ground (arith, type) in
      elim (Option-cases (node_lookup_le n key)) [
        | inl e ↦
            let above =
              floor_below key n.entries order
                (none_order n key order (subst (IsFloor n key) e floor)) in
            rw (get_loop, e)
              (ap ok (sym (ap (find key) (sym same) ∙ find_above key (pairs n.entries) above)))
        | inr (i, e) ↦
            let here = subst (IsFloor n key) e floor in
            let (f, at) = get_elem?-some n.entries i here.0 in
            let (below, above, le) = leaf_order n i f key order at here in
            let found =
              ap (find key) (sym same ∙ entries_at n.entries i f at)
              ∙ find-append key (pairs (take i n.entries))
                  ((f.key, f.val) ∷ pairs (drop (suc i) n.entries)) below
              ∙ find_floor key f (pairs (drop (suc i) n.entries)) above le in
            rw (get_loop, e, leaf, get_key_at n i f at, get_val_at n i f at) (ap ok (sym found))
      ]
  get_loop-find (suc h) (suc fuel) s key n kvs deep complete sorted (type, kids) =
      let order : Sorted (pairs n.entries) =
        Kids-Sorted pages (Holds pages h s) s n.entries kvs kids sorted in
      let floor = node_lookup_le-IsFloor n key complete.counted order in
      let inner : (n.btype == bnode_leaf) ≡ false = ground (arith, type) in
      elim (Option-cases (node_lookup_le n key)) [
        | inl e ↦
            let above =
              Kids-below pages (Holds pages h s) s key n.entries kvs kids sorted
                (none_order n key order (subst (IsFloor n key) e floor)) in
            rw (get_loop, e) (ap ok (sym (find_above key kvs above)))
        | inr (i, e) ↦
            let here = subst (IsFloor n key) e floor in
            let (f, at) = get_elem?-some n.entries i here.0 in
            let r = Kids-Around pages (Holds pages h s) s n.entries i f kvs kids at in
            let (below, above, le) =
              Around-order pages (Holds pages h s) s n i f key kvs r sorted at here in
            let found =
              ap (find key) r.whole
              ∙ find-append key r.before (r.inside ++ r.behind) below
              ∙ find-append_above key r.inside r.behind above in
            rw (get_loop, e, inner, get_ptr_at n i f at, r.kid.stored)
              (get_loop-find h fuel s key r.kid.node r.inside (omega arith) r.kid.complete
                  (Around-Sorted pages (Holds pages h s) s n.entries i f kvs r sorted) r.kid.holds
                ∙ ap ok (sym found))
      ]

  -- A tree of the given root, height and pairs; no root is an empty tree. The pairs start with the empty
  -- key, which insert puts there and nothing takes away.
  pub data IsTree : ℕ → ℕ → S → Pairs → Type 0 where
    empty_tree : (h : ℕ) (s : S) → IsTree h 0 s []
    tree :
        (h root : ℕ) (s : S) (n : BNode) (val : Bytes) (kvs : Pairs)
        → 0 < root
        → pages.live s root
        → pages.get s root ≡ ok n
        → IsComplete n
        → used n.entries ≤ btree_page_size
        → Sorted (([], val) ∷ kvs)
        → Holds pages h s n (([], val) ∷ kvs)
        → IsTree h root s (([], val) ∷ kvs)

  -- BTree::get returns what the map has under the key, for every key within the limits, and fuel beyond
  -- the height is enough.
  pub get-find :
      (h fuel root : ℕ) (s : S) (key : Bytes) (kvs : Pairs)
      → h < fuel
      → IsTree h root s kvs
      → check_key_limit key ≡ ok tt
      → Tree.get pages fuel root key s ≡ ok (find key kvs)
  unfolding Tree.get
  get-find h fuel root s key kvs deep (empty_tree _ _) limit =
      ground (arith, limit, find_above key [] tt)
  get-find h fuel root s key kvs deep
        (tree _ _ _ n val rest nonzero alive stored complete small sorted holds) limit =
      let nonempty : (root == 0) ≡ false = ground (arith, nonzero) in
      rw (limit, nonempty, stored)
        (get_loop-find h fuel s key n (([], val) ∷ rest) deep complete sorted holds)
