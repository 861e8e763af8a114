-- ===== src/Storage/Tree/Shape.antt =====
-- The trees that the pages hold, and the sorted map that each stands for.
use sqldb.Base.{
  ℕ, zero, suc, ◌≤◌, ◌≡◌, ◌≢◌, refl, sym, ap, ◌∙◌, subst, List, [], ◌∷◌, ◌++◌, append_assoc, some,
  get_elem?, get_elem?-drop, get_elem?-lt, take, drop, Bytes, lex, Ordering, ok, arith,
}
use sqldb.Storage.SortedMap.{
  Pairs, Less, AllAbove, AllBelow, Sorted, AllAbove-append, AllAbove-trans, AllBelow-le,
  Sorted-append, Sorted-below,
}
use sqldb.Storage.Node.{Entry, BNode, bnode_leaf, bnode_node, btree_page_size}
use sqldb.Storage.Node.Build.{IsComplete, used}
use sqldb.Storage.Node.Lookup.{pairs, IsFloor, get_key_at}
use sqldb.Storage.PageManager.{PageManager}

module _ {S : Type 0} (pages : PageManager S) where
  -- A link to a page with a node in it, which fits, holds the given pairs, and starts with the link's key.
  pub record Child (P : BNode → Pairs → Type 0) (s : S) (e : Entry) (kvs : Pairs) : Type 0 where
    pub node : BNode
    pub val : Bytes
    pub rest : Pairs
    pub starts : kvs ≡ (e.key, val) ∷ rest
    pub bare : e.val ≡ []
    pub alive : pages.live s e.ptr
    pub stored : pages.get s e.ptr ≡ ok node
    pub complete : IsComplete node
    pub small : used node.entries ≤ btree_page_size
    pub holds : P node kvs

  -- The links of an internal node, with the pairs of their subtrees one behind the other.
  abbrev pub Kids : (BNode → Pairs → Type 0) → S → List Entry → Pairs → Type 0
  Kids P s [] kvs = kvs ≡ []
  Kids P s (e ∷ es) kvs =
      (xs : Pairs) × (ys : Pairs) × Child P s e xs × Kids P s es ys × (kvs ≡ xs ++ ys)

  -- A node of the given height stands for the given pairs.
  abbrev pub Holds : ℕ → S → BNode → Pairs → Type 0
  Holds zero s n kvs = (n.btype ≡ bnode_leaf) × (pairs n.entries ≡ kvs)
  Holds (suc h) s n kvs = (n.btype ≡ bnode_node) × Kids (Holds h s) s n.entries kvs

  -- What was live in `s` is as it was in `t`.
  abbrev pub Extends : S → S → Type 0
  Extends s t = (p : ℕ) → pages.live s p → pages.live t p × (pages.get t p ≡ pages.get s p)

  pub Extends-refl : (s : S) → Extends s s
  Extends-refl s p h = (h, refl)

  pub Extends-trans : (r s t : S) → Extends r s → Extends s t → Extends r t
  Extends-trans r s t f g p h = let (a, e) = f p h in let (b, e') = g p a in (b, e' ∙ e)

  pub Kids-append :
      (P : BNode → Pairs → Type 0) (s : S) (es fs : List Entry) (xs ys : Pairs)
      → Kids P s es xs
      → Kids P s fs ys
      → Kids P s (es ++ fs) (xs ++ ys)
  Kids-append P s [] fs xs ys h k = subst (λ l. Kids P s fs (l ++ ys)) (sym h) k
  Kids-append P s (e ∷ es) fs xs ys (ms, bs, c, h, eq) k = (
    ms,
    bs ++ ys,
    c,
    Kids-append P s es fs bs ys h k,
    ap (λ l. l ++ ys) eq ∙ append_assoc ms bs ys,
  )

  -- The pairs before, in and behind one subtree.
  pub record Around (P : BNode → Pairs → Type 0) (s : S) (es : List Entry) (i : ℕ) (e : Entry)
      (kvs : Pairs) : Type 0 where
    pub before : Pairs
    pub inside : Pairs
    pub behind : Pairs
    pub kids_before : Kids P s (take i es) before
    pub kid : Child P s e inside
    pub kids_behind : Kids P s (drop (suc i) es) behind
    pub whole : kvs ≡ before ++ (inside ++ behind)

  pub Kids-Around :
      (P : BNode → Pairs → Type 0) (s : S) (es : List Entry) (i : ℕ) (e : Entry) (kvs : Pairs)
      → Kids P s es kvs
      → get_elem? es i ≡ some e
      → Around P s es i e kvs
  Kids-Around P s [] i e kvs h at = cc
  Kids-Around P s (f ∷ es) zero e kvs (ms, bs, c, h, eq) at =
      let same : f ≡ e = cc in
      record {
        before = [];
        inside = ms;
        behind = bs;
        kids_before = refl;
        kid = subst (λ g. Child P s g ms) same c;
        kids_behind = h;
        whole = eq;
      }
  Kids-Around P s (f ∷ es) (suc i) e kvs (ms, bs, c, h, eq) at =
      let r = Kids-Around P s es i e bs h at in
      record {
        before = ms ++ r.before;
        inside = r.inside;
        behind = r.behind;
        kids_before = (ms, r.before, c, r.kids_before, refl);
        kid = r.kid;
        kids_behind = r.kids_behind;
        whole =
            eq ∙ ap (λ l. ms ++ l) r.whole ∙ sym (append_assoc ms r.before (r.inside ++ r.behind));
      }

  -- A subtree stays as it is while the pages grow.
  Child-Extends :
      (P Q : BNode → Pairs → Type 0) (s t : S) (e : Entry) (kvs : Pairs)
      → ((n : BNode) (l : Pairs) → P n l → Q n l)
      → Extends s t
      → Child P s e kvs
      → Child Q t e kvs
  Child-Extends P Q s t e kvs f ext c = record {
    node = c.node;
    val = c.val;
    rest = c.rest;
    starts = c.starts;
    bare = c.bare;
    alive = (ext e.ptr c.alive).0;
    stored = (ext e.ptr c.alive).1 ∙ c.stored;
    complete = c.complete;
    small = c.small;
    holds = f c.node kvs c.holds;
  }

  pub Kids-Extends :
      (P Q : BNode → Pairs → Type 0) (s t : S) (es : List Entry) (kvs : Pairs)
      → ((n : BNode) (l : Pairs) → P n l → Q n l)
      → Extends s t
      → Kids P s es kvs
      → Kids Q t es kvs
  Kids-Extends P Q s t [] kvs f ext h = h
  Kids-Extends P Q s t (e ∷ es) kvs f ext (ms, bs, c, h, eq) =
      (ms, bs, Child-Extends P Q s t e ms f ext c, Kids-Extends P Q s t es bs f ext h, eq)

  pub Holds-Extends :
      (h : ℕ) (s t : S) (n : BNode) (kvs : Pairs) → Extends s t → Holds h s n kvs → Holds h t n kvs
  Holds-Extends zero s t n kvs ext holds = holds
  Holds-Extends (suc h) s t n kvs ext (type, kids) = (
    type,
    Kids-Extends (Holds h s) (Holds h t) s t n.entries kvs (λ m l. Holds-Extends h s t m l ext) ext
        kids,
  )

  -- The keys of the links are those of the first pairs, so they are sorted where the pairs are.
  Kids-AllAbove :
      (P : BNode → Pairs → Type 0) (s : S) (a : Bytes) (es : List Entry) (kvs : Pairs)
      → Kids P s es kvs
      → AllAbove a kvs
      → AllAbove a (pairs es)
  Kids-AllAbove P s a [] kvs h k = tt
  Kids-AllAbove P s a (e ∷ es) kvs (ms, bs, c, h, eq) k =
      let (l, r) = AllAbove-append a ms bs (subst (AllAbove a) eq k) in
      ((subst (AllAbove a) c.starts l).0, Kids-AllAbove P s a es bs h r)

  pub Kids-Sorted :
      (P : BNode → Pairs → Type 0) (s : S) (es : List Entry) (kvs : Pairs)
      → Kids P s es kvs
      → Sorted kvs
      → Sorted (pairs es)
  Kids-Sorted P s [] kvs h k = tt
  Kids-Sorted P s (e ∷ es) kvs (ms, bs, c, h, eq) k =
      let all = subst Sorted (eq ∙ ap (λ l. l ++ bs) c.starts) k in
      let (l, r) = AllAbove-append e.key c.rest bs all.0 in
      (Kids-AllAbove P s e.key es bs h r, Kids-Sorted P s es bs h (Sorted-append c.rest bs all.1).1)

  -- Where a key is below the first link, it is below every pair.
  pub Kids-below :
      (P : BNode → Pairs → Type 0) (s : S) (key : Bytes) (es : List Entry) (kvs : Pairs)
      → Kids P s es kvs
      → Sorted kvs
      → ((e : Entry) → get_elem? es 0 ≡ some e → Less key e.key)
      → AllAbove key kvs
  Kids-below P s key [] kvs h k first = subst (AllAbove key) (sym h) tt
  Kids-below P s key (e ∷ es) kvs (ms, bs, c, h, eq) k first =
      let all = eq ∙ ap (λ l. l ++ bs) c.starts in
      let order = subst Sorted all k in
      subst (AllAbove key) (sym all)
        (first e refl, AllAbove-trans key e.key (c.rest ++ bs) (first e refl) order.0)

  -- A key that node_lookup_le sends to a link belongs among the pairs of its subtree.
  pub Around-order :
      (P : BNode → Pairs → Type 0) (s : S) (n : BNode) (i : ℕ) (e : Entry) (key : Bytes)
      (kvs : Pairs) (r : Around P s n.entries i e kvs)
      → Sorted kvs
      → get_elem? n.entries i ≡ some e
      → IsFloor n key (some i)
      → AllBelow key r.before × AllAbove key r.behind × (lex e.key key ≢ Ordering.gt)
  Around-order P s n i e key kvs r sorted at (within, below, above) =
      let not_above : lex e.key key ≢ Ordering.gt =
        subst (λ k. lex k key ≢ Ordering.gt) (get_key_at n i e at) below in
      let order = subst Sorted r.whole sorted in
      let split =
        subst Sorted (r.whole ∙ ap (λ l. r.before ++ (l ++ r.behind)) r.kid.starts) sorted in
      let under = Sorted-below r.before (e.key, r.kid.val) (r.kid.rest ++ r.behind) split in
      let later =
        Sorted-append r.inside r.behind (Sorted-append r.before (r.inside ++ r.behind) order).1 in
      (
        AllBelow-le e.key key r.before under not_above,
        Kids-below P s key (drop (suc i) n.entries) r.behind r.kids_behind later.1 (λ g f.
            let there : get_elem? n.entries (suc i) ≡ some g =
              sym (get_elem?-drop (suc i) n.entries) ∙ f in
            subst (Less key) (get_key_at n (suc i) g there)
              (above (suc i) (omega arith) (get_elem?-lt n.entries (suc i) g there))),
        not_above,
      )

  pub Around-Sorted :
      (P : BNode → Pairs → Type 0) (s : S) (es : List Entry) (i : ℕ) (e : Entry) (kvs : Pairs)
      (r : Around P s es i e kvs)
      → Sorted kvs
      → Sorted r.inside
  Around-Sorted P s es i e kvs r sorted =
      (Sorted-append r.inside r.behind
        (Sorted-append r.before (r.inside ++ r.behind) (subst Sorted r.whole sorted)).1).0
