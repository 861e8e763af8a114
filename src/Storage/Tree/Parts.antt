-- ===== src/Storage/Tree/Parts.antt =====
-- The nodes that node_split_if_needed leaves, and the pairs of each.
use sqldb.Base.{
  ℕ, zero, suc, ◌+◌, ◌-◌, ◌≤◌, ◌<◌, ◌≡◌, refl, sym, ap, ◌∙◌, List, [], ◌∷◌, ◌++◌, append_assoc,
  append-nil, some, length, length-take, length-drop, get_elem?, get_elem?-some, take, drop,
  take-append-drop, leb, Bytes, ok, Bool-cases, inl, inr, arith,
}
use sqldb.Storage.SortedMap.{Pair, Pairs}
use sqldb.Storage.Node.{Entry, BNode, nbytes, get_key, node_split_if_needed, btree_page_size}
use sqldb.Storage.Node.Build.{Fits, IsComplete, All-take, All-drop, used}
use sqldb.Storage.Node.Split.{max_entry, node_split-ok, nbytes-used}
use sqldb.Storage.Node.Lookup.{pairs, get_key_at}
use sqldb.Storage.PageManager.{PageManager}
use sqldb.Storage.Tree.Shape.{Kids, Holds}

pub pairs-append : (xs ys : List Entry) → pairs (xs ++ ys) ≡ pairs xs ++ pairs ys
pairs-append [] ys = refl
pairs-append (x ∷ xs) ys = ap (λ l. (x.key, x.val) ∷ l) (pairs-append xs ys)

-- A node by itself that fits into a page, and its pairs, the first of which has the node's first key.
pub record Part (P : BNode → Pairs → Type 0) (n : BNode) (kvs : Pairs) : Type 0 where
  pub val : Bytes
  pub rest : Pairs
  pub starts : kvs ≡ (get_key n 0, val) ∷ rest
  pub complete : IsComplete n
  pub small : used n.entries ≤ btree_page_size
  pub holds : P n kvs

-- Nodes whose pairs, one behind the other, are the given ones.
abbrev pub Parts : (BNode → Pairs → Type 0) → List BNode → Pairs → Type 0
Parts P [] kvs = kvs ≡ []
Parts P (n ∷ ns) kvs = (xs : Pairs) × (ys : Pairs) × Part P n xs × Parts P ns ys × (kvs ≡ xs ++ ys)

pairs_first :
    (es : List Entry) (e : Entry) (kvs : Pairs)
    → get_elem? es 0 ≡ some e
    → pairs es ≡ kvs
    → (val : Bytes) × (rest : Pairs) × (kvs ≡ (e.key, val) ∷ rest)
pairs_first [] e kvs at same = cc
pairs_first (f ∷ es) e kvs at same =
    let first : f ≡ e = cc in
    (f.val, pairs es, sym same ∙ ap (λ g. (g.key, f.val) ∷ pairs es) first)

module _ {S : Type 0} (pages : PageManager S) where
  Kids-first :
      (P : BNode → Pairs → Type 0) (s : S) (es : List Entry) (e : Entry) (kvs : Pairs)
      → get_elem? es 0 ≡ some e
      → Kids pages P s es kvs
      → (val : Bytes) × (rest : Pairs) × (kvs ≡ (e.key, val) ∷ rest)
  Kids-first P s [] e kvs at kids = cc
  Kids-first P s (f ∷ es) e kvs at (xs, ys, c, kids, eq) =
      let first : f ≡ e = cc in
      (
        c.val,
        c.rest ++ ys,
        eq ∙ ap (λ l. l ++ ys) c.starts ∙ ap (λ g. (g.key, c.val) ∷ c.rest ++ ys) first,
      )

  -- A node with entries has pairs, and they start with its first key.
  pub Holds-first :
      (h : ℕ) (s : S) (n : BNode) (kvs : Pairs)
      → 0 < length n.entries
      → Holds pages h s n kvs
      → (val : Bytes) × (rest : Pairs) × (kvs ≡ (get_key n 0, val) ∷ rest)
  Holds-first zero s n kvs some_there (type, same) =
      let (e, at) = get_elem?-some n.entries 0 some_there in
      let (val, rest, eq) = pairs_first n.entries e kvs at same in
      (val, rest, eq ∙ ap (λ k. (k, val) ∷ rest) (sym (get_key_at n 0 e at)))
  Holds-first (suc h) s n kvs some_there (type, kids) =
      let (e, at) = get_elem?-some n.entries 0 some_there in
      let (val, rest, eq) = Kids-first (Holds pages h s) s n.entries e kvs at kids in
      (val, rest, eq ∙ ap (λ k. (k, val) ∷ rest) (sym (get_key_at n 0 e at)))

  pairs_none : (es : List Entry) (kv : Pair) (kvs : Pairs) → pairs es ≡ kv ∷ kvs → 0 < length es
  pairs_none [] kv kvs h = cc
  pairs_none (e ∷ es) kv kvs h = omega arith

  Kids-none :
      (P : BNode → Pairs → Type 0) (s : S) (es : List Entry) (kv : Pair) (kvs : Pairs)
      → Kids pages P s es (kv ∷ kvs)
      → 0 < length es
  Kids-none P s [] kv kvs h = cc
  Kids-none P s (e ∷ es) kv kvs h = omega arith

  -- A node with a pair has an entry.
  pub Holds-some :
      (h : ℕ) (s : S) (n : BNode) (kv : Pair) (kvs : Pairs)
      → Holds pages h s n (kv ∷ kvs)
      → 0 < length n.entries
  Holds-some zero s n kv kvs (type, same) = pairs_none n.entries kv kvs same
  Holds-some (suc h) s n kv kvs (type, kids) = Kids-none (Holds pages h s) s n.entries kv kvs kids

  pub Kids-split :
      (P : BNode → Pairs → Type 0) (s : S) (k : ℕ) (es : List Entry) (kvs : Pairs)
      → Kids pages P s es kvs
      → (xs : Pairs) × (ys : Pairs) × Kids pages P s (take k es) xs
        × Kids pages P s (drop k es) ys
        × (kvs ≡ xs ++ ys)
  Kids-split P s zero es kvs h = ([], kvs, refl, h, refl)
  Kids-split P s (suc k) [] kvs h = ([], [], refl, refl, h)
  Kids-split P s (suc k) (e ∷ es) kvs (ms, bs, c, h, eq) =
      let (xs, ys, l, r, same) = Kids-split P s k es bs h in
      (
        ms ++ xs,
        ys,
        (ms, xs, c, l, refl),
        r,
        eq ∙ ap (λ l. ms ++ l) same ∙ sym (append_assoc ms xs ys),
      )

  -- The pieces of a node hold the pieces of its pairs.
  Holds-split :
      (h : ℕ) (s : S) (k i j : ℕ) (n : BNode) (kvs : Pairs)
      → Holds pages h s n kvs
      → (xs : Pairs) × (ys : Pairs) × Holds pages h s
          (record { btype = n.btype; nkeys = i; entries = take k n.entries })
          xs
        × Holds pages h s (record { btype = n.btype; nkeys = j; entries = drop k n.entries }) ys
        × (kvs ≡ xs ++ ys)
  Holds-split zero s k i j n kvs (type, same) = (
    pairs (take k n.entries),
    pairs (drop k n.entries),
    (type, refl),
    (type, refl),
    sym same
        ∙ ap pairs (sym (take-append-drop k n.entries))
        ∙ pairs-append (take k n.entries) (drop k n.entries),
  )
  Holds-split (suc h) s k i j n kvs (type, kids) =
      let (xs, ys, l, r, eq) = Kids-split (Holds pages h s) s k n.entries kvs kids in
      (xs, ys, (type, l), (type, r), eq)

  pub Holds-Part :
      (h : ℕ) (s : S) (n : BNode) (kvs : Pairs)
      → IsComplete n
      → used n.entries ≤ btree_page_size
      → 0 < length n.entries
      → Holds pages h s n kvs
      → Part (Holds pages h s) n kvs
  Holds-Part h s n kvs complete small some_there holds =
      let (val, rest, eq) = Holds-first h s n kvs some_there holds in
      record {
        val = val;
        rest = rest;
        starts = eq;
        complete = complete;
        small = small;
        holds = holds;
      }

  -- The nodes of a split: one or two, with the pairs of the node that was split.
  pub record Halves (h : ℕ) (s : S) (n : BNode) (kvs : Pairs) : Type 0 where
    pub head : BNode
    pub more : List BNode
    pub returns : node_split_if_needed n ≡ ok (head ∷ more)
    pub few : length more ≤ 1
    pub parts : Parts (Holds pages h s) (head ∷ more) kvs

  -- A node that is larger than a page by one entry at most is cut into nodes that fit.
  pub node_split_if_needed-Parts :
      (h : ℕ) (s : S) (n : BNode) (kv : Pair) (kvs : Pairs)
      → IsComplete n
      → used n.entries ≤ btree_page_size + max_entry
      → Holds pages h s n (kv ∷ kvs)
      → Halves h s n (kv ∷ kvs)
  unfolding node_split_if_needed
  node_split_if_needed-Parts h s n kv kvs complete bound holds =
      elim (Bool-cases (leb (nbytes n) btree_page_size)) [
        | inl small ↦
            let part =
              Holds-Part h s n (kv ∷ kvs) complete (ground (arith, nbytes-used n complete bound))
                (Holds-some h s n kv kvs holds) holds in
            record {
              head = n;
              more = [];
              returns = rw small refl;
              few = omega arith;
              parts = (kv ∷ kvs, [], part, refl, sym (append-nil (kv ∷ kvs)));
            }
        | inr large ↦
            let (k, low, high, splits, left_small, right_small) =
              node_split-ok n complete bound (ground (arith, nbytes-used n complete bound)) in
            let (xs, ys, l, r, eq) = Holds-split h s k k (n.nkeys - k) n (kv ∷ kvs) holds in
            let counted = complete.counted in
            let lengths : (length (take k n.entries) ≡ k)
                × (length (drop k n.entries) ≡ n.nkeys - k) =
              (omega (arith, length-take k n.entries), omega (arith, length-drop k n.entries)) in
            let left =
              Holds-Part h s _ xs
                (record {
                  counted = sym lengths.0;
                  fitting = All-take Fits k n.entries complete.fitting;
                })
                left_small (omega (arith, lengths)) l in
            let right =
              Holds-Part h s _ ys
                (record {
                  counted = sym lengths.1;
                  fitting = All-drop Fits k n.entries complete.fitting;
                })
                right_small (omega (arith, lengths)) r in
            record {
              head = record { btype = n.btype; nkeys = k; entries = take k n.entries };
              more =
                  record { btype = n.btype; nkeys = n.nkeys - k; entries = drop k n.entries } ∷ [];
              returns = rw (large, splits) refl;
              few = omega arith;
              parts = (xs, ys, left, (ys, [], right, refl, sym (append-nil ys)), eq);
            }
      ]
