-- ===== src/Storage/Tree/Replace.antt =====
-- node_insert puts the nodes of a split in the place of the child that they come from.
use sqldb.Base.{
  ℕ, zero, suc, ◌+◌, ◌-◌, ◌*◌, ◌≤◌, ◌<◌, ◌≡◌, ◌≢◌, refl, sym, ap, ◌∙◌, subst, List, [], ◌∷◌, ◌++◌,
  length, take, drop, get_elem?, Bytes, lex, lex-eq, lex_swap, Ordering, none, some, ok, ◌>>=◌,
  Option-cases, inl, inr, All, arith,
}
use sqldb.Storage.SortedMap.{Ordering-cases, Pair, Pairs, AllAbove, Sorted, put}
use sqldb.Storage.Node.{
  Entry, BNode, kv_size, offset, get_key, node_lookup_le, bnode_node, btree_page_size,
  btree_max_key_size,
}
use sqldb.Storage.Node.Build.{
  Fits, IsComplete, used, splice, piece, build-ok, length-splice, offset-splice, All-splice,
}
use sqldb.Storage.Node.Split.{max_entry}
use sqldb.Storage.Node.Lookup.{pairs, IsFloor, node_lookup_le-IsFloor}
use sqldb.Storage.PageManager.{PageManager}
use sqldb.Storage.Tree.{node_replace_child_n}
use sqldb.Storage.Tree.Shape.{
  Kids, Holds, Around, Kids-Sorted, Kids-below, Kids-append, Kids-Extends, Holds-Extends, Extends,
  Extends-trans,
}
use sqldb.Storage.Tree.Get.{floor_below, none_order}
use sqldb.Storage.Tree.Parts.{Parts, Halves}
use sqldb.Storage.Tree.Links.{links, length-links, links-Kids, beside, node_replace_child_n-links}

-- The first key stays where the key put is not below it.
pub put_first :
    (key val : Bytes) (kv : Pair) (kvs : Pairs)
    → lex kv.0 key ≢ Ordering.gt
    → (v : Bytes) × (rest : Pairs) × (put key val (kv ∷ kvs) ≡ (kv.0, v) ∷ rest)
unfolding put
put_first key val kv kvs le = elim (Ordering-cases (lex key kv.0)) [
  | inl (inl less) ↦ absurd (ground (arith, less, lex_swap key kv.0, le))
  | inl (inr same) ↦ (val, kvs, rw (put, same) (ap (λ k. (k, val) ∷ kvs) (lex-eq key kv.0 same)))
  | inr greater ↦ (kv.1, put key val kvs, rw (put, greater) refl)
]

Fits-first :
    (es : List Entry)
    → All Fits es
    → length (elim (get_elem? es 0) as (λ _. Bytes) [ none ↦ [] | some e ↦ e.key ])
      ≤ btree_max_key_size
Fits-first [] h = omega arith
Fits-first (e ∷ es) h = h.0.0

pub get_key_limit : (n : BNode) → IsComplete n → length (get_key n 0) ≤ btree_max_key_size
unfolding get_key
get_key_limit n complete = Fits-first n.entries complete.fitting

pub piece_at :
    (es : List Entry) (i : ℕ) (f : Entry)
    → get_elem? es i ≡ some f
    → offset (take 1 (drop i es)) ≡ kv_size f
unfolding offset
piece_at [] i f at = cc
piece_at (e ∷ es) zero f at = let same : e ≡ f = cc in omega (arith, ap kv_size same)
piece_at (e ∷ es) (suc i) f at = piece_at es i f at

module _ {S : Type 0} (pages : PageManager S) where
  pub links-Fits :
      (P : BNode → Pairs → Type 0) (ns : List BNode) (s : S) (kvs : Pairs)
      → Parts P ns kvs
      → All Fits (links pages ns s).0
  links-Fits P [] s kvs parts = tt
  links-Fits P (n ∷ ns) s kvs (xs, ys, part, parts, eq) = (
    (get_key_limit n part.complete, omega arith),
    links-Fits P ns (pages.new_page s n).1 ys parts,
  )

  pub offset-links :
      (P : BNode → Pairs → Type 0) (ns : List BNode) (s : S) (kvs : Pairs)
      → Parts P ns kvs
      → offset (links pages ns s).0 ≤ 1004 * length ns
  unfolding offset
  offset-links P [] s kvs parts = omega arith
  offset-links P (n ∷ ns) s kvs (xs, ys, part, parts, eq) =
      omega
        (arith, get_key_limit n part.complete, offset-links P ns (pages.new_page s n).1 ys parts)

  -- A node that an insertion has left, before it is split.
  pub record Grown (h : ℕ) (s : S) (n : BNode) (kvs : Pairs) : Type 0 where
    pub complete : IsComplete n
    pub bound : used n.entries ≤ btree_page_size + max_entry
    pub holds : Holds pages h s n kvs

  pub Holds-order :
      (h : ℕ) (s : S) (n : BNode) (kvs : Pairs)
      → Holds pages h s n kvs
      → Sorted kvs
      → Sorted (pairs n.entries)
  Holds-order zero s n kvs (type, same) sorted = subst Sorted (sym same) sorted
  Holds-order (suc h) s n kvs (type, kids) sorted =
      Kids-Sorted pages (Holds pages h s) s n.entries kvs kids sorted

  Holds-above :
      (h : ℕ) (s : S) (n : BNode) (key : Bytes) (kvs : Pairs)
      → Holds pages h s n kvs
      → Sorted kvs
      → IsFloor n key none
      → AllAbove key kvs
  Holds-above zero s n key kvs (type, same) sorted above = subst (AllAbove key) same (
      floor_below key n.entries (subst Sorted (sym same) sorted)
        (none_order n key (subst Sorted (sym same) sorted) above))
  Holds-above (suc h) s n key kvs (type, kids) sorted above =
      Kids-below pages (Holds pages h s) s key n.entries kvs kids sorted
        (none_order n key (Kids-Sorted pages (Holds pages h s) s n.entries kvs kids sorted) above)

  -- Where the first key is not above the given one, the lookup finds a position.
  pub IsFloor-found :
      (h : ℕ) (s : S) (n : BNode) (key : Bytes) (kv : Pair) (kvs : Pairs)
      → IsComplete n
      → Holds pages h s n (kv ∷ kvs)
      → Sorted (kv ∷ kvs)
      → lex kv.0 key ≢ Ordering.gt
      → (i : ℕ) × (node_lookup_le n key ≡ some i) × IsFloor n key (some i)
  IsFloor-found h s n key kv kvs complete holds sorted le =
      let floor =
        node_lookup_le-IsFloor n key complete.counted (Holds-order h s n (kv ∷ kvs) holds sorted) in
      elim (Option-cases (node_lookup_le n key)) [
        | inl e ↦
            let above =
              Holds-above h s n key (kv ∷ kvs) holds sorted (subst (IsFloor n key) e floor) in
            absurd (ground (arith, above.0, lex_swap kv.0 key, le))
        | inr (i, e) ↦ (i, e, subst (IsFloor n key) e floor)
      ]

  -- The links to one node or two, the first of which has the key of the link that they replace, make a
  -- node larger by one entry at most.
  replaced_bound :
      (h : ℕ) (t u : S) (n : BNode) (i : ℕ) (f : Entry) (m : BNode) (v : Bytes) (rest : Pairs)
      (sp : Halves pages h t m ((f.key, v) ∷ rest))
      → used n.entries ≤ btree_page_size
      → get_elem? n.entries i ≡ some f
      → i < length n.entries
      → f.val ≡ []
      → used (splice n.entries i (links pages (sp.head ∷ sp.more) u).0 (i + 1))
        ≤ btree_page_size + max_entry
  unfolding offset
  replaced_bound h t u n i f m v rest sp small at within bare =
      let es = (links pages (sp.head ∷ sp.more) u).0 in
      let (xs, ys, part, parts, eq) = sp.parts in
      let same : get_key sp.head 0 ≡ f.key = ground (arith, eq, part.starts) in
      let gone : offset (piece n.entries i (i + 1)) ≡ kv_size f =
        ap (λ k. offset (take k (drop i n.entries))) {x = i + 1 - i} {y = 1} (omega arith)
        ∙ piece_at n.entries i f at in
      let links_bound : offset es ≤ 4 + length f.key + 1004 * length sp.more = omega (
        arith,
        ap length same,
        offset-links (Holds pages h t) sp.more (pages.new_page u sp.head).1 ys parts,
      ) in
      omega (
        arith,
        length-splice n.entries es i (i + 1) (omega arith) (omega (arith, within)),
        ap length bare,
        length-links pages (sp.head ∷ sp.more) u,
        offset-splice n.entries es i (i + 1) (omega arith),
        gone,
        links_bound,
        sp.few,
        small,
      )

  -- The links to the parts of a subtree, in the place of the link to it.
  pub replaced :
      (h : ℕ) (s t : S) (n : BNode) (i : ℕ) (f : Entry) (kvs : Pairs) (m : BNode) (v : Bytes)
      (rest : Pairs) (r : Around pages (Holds pages h s) s n.entries i f kvs)
      (sp : Halves pages h t m ((f.key, v) ∷ rest))
      → IsComplete n
      → used n.entries ≤ btree_page_size
      → get_elem? n.entries i ≡ some f
      → i < length n.entries
      → Extends pages s t
      → (q : BNode) × (u : S) × (node_replace_child_n pages
            (2 * btree_page_size)
            n
            i
            (sp.head ∷ sp.more)
            (pages.del t f.ptr)
          ≡ ok (q, u))
        × Extends pages s u
        × Grown (suc h) u q (r.before ++ ((f.key, v) ∷ rest ++ r.behind))
  unfolding offset
  replaced h s t n i f kvs m v rest r sp complete small at within ext =
      let ns = sp.head ∷ sp.more in
      let t' = pages.del t f.ptr in
      let es = (links pages ns t').0 in
      let u = (links pages ns t').1 in
      let (kids, ext') =
        links-Kids pages h ns t t' ((f.key, v) ∷ rest) (pages.del-keeps t f.ptr) sp.parts in
      let all : Extends pages s u = Extends-trans pages s t u ext ext' in
      let count = n.nkeys + length ns - 1 in
      let lengths = length-splice n.entries es i (i + 1) (omega arith) (omega (arith, within)) in
      let bound = replaced_bound h t t' n i f m v rest sp small at within r.kid.bare in
      let counted : count ≡ length (splice n.entries i es (i + 1)) =
        omega (arith, lengths, length-links pages ns t', complete.counted) in
      let fits =
        All-splice n.entries es i (i + 1) complete.fitting
          (links-Fits (Holds pages h t) ns t' ((f.key, v) ∷ rest) sp.parts) in
      let built =
        build-ok (2 * btree_page_size) bnode_node count (splice n.entries i es (i + 1))
          (omega arith) fits counted (omega (arith, bound)) in
      let move = λ (l : List Entry) (k : Pairs).
        Kids-Extends pages (Holds pages h s) (Holds pages h u) s u l k
          (λ b j. Holds-Extends pages h s u b j all) all in
      let behind =
        subst (λ k. Kids pages (Holds pages h u) u (drop k n.entries) r.behind) {x = suc i}
          (omega arith) (move (drop (suc i) n.entries) r.behind r.kids_behind) in
      let whole =
        Kids-append pages (Holds pages h u) u (take i n.entries) (es ++ drop (i + 1) n.entries)
          r.before ((f.key, v) ∷ rest ++ r.behind) (move (take i n.entries) r.before r.kids_before)
          (Kids-append pages (Holds pages h u) u es (drop (i + 1) n.entries) ((f.key, v) ∷ rest)
            r.behind kids behind) in
      (
        _,
        u,
        node_replace_child_n-links pages (2 * btree_page_size) n i ns t' complete
            ∙ ap (λ b. b >>= beside pages u) built,
        all,
        record {
          complete = record { counted = counted; fitting = fits };
          bound = bound;
          holds = (refl, whole);
        },
      )
