-- ===== src/Storage/Tree/Delete/Pieces.antt =====
-- The nodes that a deletion builds, and the pairs of neighbouring subtrees.
use sqldb.Base.{
  ℕ, zero, suc, ◌+◌, ◌-◌, ◌*◌, ◌^◌, ◌≤◌, ◌<◌, ◌≡◌, refl, sym, ap, ◌∙◌, subst, List, [], ◌∷◌, ◌++◌,
  append_assoc, append-nil, length, length-append, length-drop, take, drop, get_elem?, some, leb,
  ok, stop, asserted, ◌⊎◌, inl, inr, Bool-cases, All, All-append, arith,
}
use sqldb.Storage.SortedMap.{Pairs}
use sqldb.Storage.Node.{
  Entry, BNode, offset, set_header, append_all, node_append_range, node_merge, node_replace_2_child,
  link, bnode_node, btree_page_size,
}
use sqldb.Storage.Node.Build.{
  Fits, IsComplete, used, splice, offset-append, append_all-append, build-ok, take_all,
  three_pieces,
}
use sqldb.Storage.Node.Lookup.{pairs}
use sqldb.Storage.PageManager.{PageManager}
use sqldb.Storage.Tree.Shape.{Child, Kids, Holds, Kids-append}
use sqldb.Storage.Tree.Parts.{pairs-append}
use sqldb.Storage.Tree.Overflow.{append_all-full}

-- A node that is built at once gets all its entries, or runs into the assertion of node_append_kv.
pub build_cases :
    (size btype n : ℕ) (es : List Entry)
    → size < 2 ^ 16
    → All Fits es
    → n ≡ length es
    → 4 + 10 * n ≤ size
    → ((size < used es) × (append_all size es (set_header btype n) ≡ stop asserted))
      ⊎ ((append_all size es (set_header btype n)
            ≡ ok (record { btype = btype; nkeys = n; entries = es }))
          × (used es ≤ size))
unfolding offset
build_cases size btype n es small fits count room = elim (Bool-cases (leb (used es) size)) [
  | inl le ↦
      let fit : used es ≤ size = ground arith in
      inr (build-ok size btype n es small fits count fit, fit)
  | inr gt ↦ inl (
    ground arith,
    append_all-full size es (set_header btype n) small fits (omega arith) (ground (arith, count)),
  )
]

pub node_replace_2_child-pieces :
    (size : ℕ) (old : BNode) (idx ptr : ℕ) (key : List ℕ)
    → IsComplete old
    → node_replace_2_child size old idx ptr key
      ≡ append_all size
          (splice old.entries idx (link ptr key ∷ []) (idx + 2))
          (set_header bnode_node (old.nkeys - 1))
unfolding node_replace_2_child node_append_range
node_replace_2_child-pieces size old idx ptr key complete =
    rw
      (take_all (old.nkeys - (idx + 2)) (drop (idx + 2) old.entries)
        (omega (arith, length-drop (idx + 2) old.entries, complete.counted)))
      (three_pieces size _ _ _ _)

-- Two nodes that fit into a page together are merged.
pub node_merge-ok :
    (a b : BNode)
    → IsComplete a
    → IsComplete b
    → used a.entries + used b.entries ≤ btree_page_size + 4
    → (node_merge btree_page_size a b
        ≡ ok (record {
          btype = a.btype;
          nkeys = a.nkeys + b.nkeys;
          entries = a.entries ++ b.entries;
        }))
      × IsComplete
          (record { btype = a.btype; nkeys = a.nkeys + b.nkeys; entries = a.entries ++ b.entries })
      × (used (a.entries ++ b.entries) ≤ btree_page_size)
unfolding node_merge node_append_range
node_merge-ok a b ca cb room =
    let counted : a.nkeys + b.nkeys ≡ length (a.entries ++ b.entries) =
      omega (arith, ca.counted, cb.counted, length-append a.entries b.entries) in
    let fitting = All-append Fits a.entries b.entries ca.fitting cb.fitting in
    let small : used (a.entries ++ b.entries) ≤ btree_page_size =
      omega (arith, room, length-append a.entries b.entries, offset-append a.entries b.entries) in
    let built =
      build-ok btree_page_size a.btype (a.nkeys + b.nkeys) (a.entries ++ b.entries) (omega arith)
        fitting counted small in
    (
      rw
          (
            take_all a.nkeys a.entries (omega (arith, ca.counted)),
            take_all b.nkeys b.entries (omega (arith, cb.counted)),
          )
          (sym (append_all-append btree_page_size a.entries b.entries _) ∙ built),
      record { counted = counted; fitting = fitting },
      small,
    )

module _ {S : Type 0} (pages : PageManager S) where
  -- Of two nodes of one height, the pairs of both.
  pub Holds-append :
      (h n : ℕ) (s : S) (a b : BNode) (xs ys : Pairs)
      → Holds pages h s a xs
      → Holds pages h s b ys
      → Holds pages h s
          (record { btype = a.btype; nkeys = n; entries = a.entries ++ b.entries })
          (xs ++ ys)
  Holds-append zero n s a b xs ys (type, same) (type', same') = (
    type,
    pairs-append a.entries b.entries
        ∙ ap (λ l. l ++ pairs b.entries) same
        ∙ ap (λ l. xs ++ l) same',
  )
  Holds-append (suc h) n s a b xs ys (type, kids) (type', kids') =
      (type, Kids-append pages (Holds pages h s) s a.entries b.entries xs ys kids kids')

  pairs_empty : (es : List Entry) (kvs : Pairs) → length es ≡ 0 → pairs es ≡ kvs → kvs ≡ []
  pairs_empty [] kvs none_there same = sym same
  pairs_empty (e ∷ es) kvs none_there same = absurd (omega arith)

  pub Kids-empty :
      (P : BNode → Pairs → Type 0) (s : S) (es : List Entry) (kvs : Pairs)
      → length es ≡ 0
      → Kids pages P s es kvs
      → kvs ≡ []
  Kids-empty P s [] kvs none_there kids = kids
  Kids-empty P s (e ∷ es) kvs none_there kids = absurd (omega arith)

  -- A node without entries has no pairs.
  pub Holds-empty :
      (h : ℕ) (s : S) (n : BNode) (kvs : Pairs)
      → length n.entries ≡ 0
      → Holds pages h s n kvs
      → kvs ≡ []
  Holds-empty zero s n kvs none_there (type, same) = pairs_empty n.entries kvs none_there same
  Holds-empty (suc h) s n kvs none_there (type, kids) =
      Kids-empty (Holds pages h s) s n.entries kvs none_there kids

  -- The last of the subtrees before an index, and the first of those from it on.
  pub Kids-last :
      (P : BNode → Pairs → Type 0) (s : S) (es : List Entry) (i : ℕ) (e : Entry) (kvs : Pairs)
      → get_elem? es i ≡ some e
      → Kids pages P s (take (suc i) es) kvs
      → (xs : Pairs) × (ys : Pairs) × Kids pages P s (take i es) xs
        × Child pages P s e ys
        × (kvs ≡ xs ++ ys)
  Kids-last P s [] i e kvs at kids = cc
  Kids-last P s (f ∷ es) zero e kvs at (ms, bs, c, kids, eq) =
      let same : f ≡ e = cc in
      (
        [],
        ms,
        refl,
        subst (λ g. Child pages P s g ms) same c,
        eq ∙ ap (λ l. ms ++ l) kids ∙ append-nil ms,
      )
  Kids-last P s (f ∷ es) (suc i) e kvs at (ms, bs, c, kids, eq) =
      let (xs, ys, l, k, same) = Kids-last P s es i e bs at kids in
      (
        ms ++ xs,
        ys,
        (ms, xs, c, l, refl),
        k,
        eq ∙ ap (λ l. ms ++ l) same ∙ sym (append_assoc ms xs ys),
      )

  pub Kids-next :
      (P : BNode → Pairs → Type 0) (s : S) (es : List Entry) (i : ℕ) (e : Entry) (kvs : Pairs)
      → get_elem? es i ≡ some e
      → Kids pages P s (drop i es) kvs
      → (xs : Pairs) × (ys : Pairs) × Child pages P s e xs
        × Kids pages P s (drop (suc i) es) ys
        × (kvs ≡ xs ++ ys)
  Kids-next P s [] i e kvs at kids = cc
  Kids-next P s (f ∷ es) zero e kvs at (ms, bs, c, kids, eq) =
      let same : f ≡ e = cc in (ms, bs, subst (λ g. Child pages P s g ms) same c, kids, eq)
  Kids-next P s (f ∷ es) (suc i) e kvs at kids = Kids-next P s es i e kvs at kids
