-- ===== src/Storage/Tree/Delete/Relink.antt =====
-- relink, behind a deletion from a child: the node holds the pairs that are left, or there is no room for
-- the link.
use sqldb.Base.{
  ℕ, suc, ◌+◌, ◌-◌, ◌≤◌, ◌<◌, ◌≡◌, refl, sym, ap, ◌∙◌, subst, false, List, [], ◌∷◌, ◌++◌,
  append_assoc, append-nil, length, length-append, length-take, length-drop, take, drop, ◌==◌, ok,
  stop, asserted, ◌>>=◌, ◌⊎◌, inl, inr, Bool-cases, arith,
}
use sqldb.Storage.SortedMap.{Pairs}
use sqldb.Storage.Node.{
  Entry, BNode, offset, set_header, append_all, get_key, get_ptr, link, bnode_node, btree_page_size,
  btree_max_key_size,
}
use sqldb.Storage.Node.Build.{
  IsComplete, used, splice, piece, length-splice, offset-splice, All-splice,
}
use sqldb.Storage.PageManager.{PageManager}
use sqldb.Storage.Tree.{Step}
use sqldb.Storage.Tree.Shape.{
  Child, Kids, Holds, Around, Kids-append, Kids-Extends, Holds-Extends, Extends, Extends-trans,
}
use sqldb.Storage.Tree.Parts.{Holds-some, Part, Parts, Holds-Part}
use sqldb.Storage.Tree.Links.{links, links-Kids, beside, node_replace_child_n-links}
use sqldb.Storage.Tree.Replace.{links-Fits, get_key_limit}
use sqldb.Storage.Tree.Delete.{Merge, merge_none, merge_left, merge_right, relink}
use sqldb.Storage.Tree.Delete.Pieces.{
  build_cases, node_replace_2_child-pieces, node_merge-ok, Holds-append, Holds-empty, Kids-empty,
}
use sqldb.Storage.Tree.Delete.Siblings.{Side, LeftSide, RightSide}

some_offset : (es : List Entry) → 0 < length es → 4 ≤ offset es
unfolding offset
some_offset [] h = absurd (omega arith)
some_offset (e ∷ es) h = omega arith

length-piece : (es : List Entry) (i j : ℕ) → j ≤ length es → length (piece es i j) ≡ j - i
length-piece es i j le = omega (arith, length-take (j - i) (drop i es), length-drop i es)

-- A node with less room left in its page than the longest key takes.
abbrev pub IsNearlyFull : BNode → Type 0
IsNearlyFull n = btree_page_size < used n.entries + btree_max_key_size

module _ {S : Type 0} (pages : PageManager S) where
  -- A node that a deletion has left. It may have no entry.
  pub record Shrunk (h : ℕ) (s : S) (n : BNode) (kvs : Pairs) : Type 0 where
    pub complete : IsComplete n
    pub small : used n.entries ≤ btree_page_size
    pub holds : Holds pages h s n kvs

  -- The call stops at an assertion, behind a node that is nearly full, or returns a node of the given pairs
  -- and leaves the pages in use.
  abbrev pub Relinked : BNode → ℕ → S → Pairs → Step S → Type 0
  Relinked n h s kvs result =
      (IsNearlyFull n × (result ≡ stop asserted))
      ⊎ ((q : BNode) × (u : S) × (result ≡ ok (q, u)) × Extends pages s u × Shrunk h u q kvs)

  Relinked-same :
      {result : Step S} (n : BNode) (h : ℕ) (s : S) (kvs same : Pairs)
      → kvs ≡ same
      → Relinked n h s kvs result
      → Relinked n h s same result
  Relinked-same n h s kvs same e (inl full) = inl full
  Relinked-same n h s kvs same e (inr (q, u, done, ext, shrunk)) =
      inr (q, u, done, ext, subst (Shrunk h u q) e shrunk)

  -- A child has entries.
  Child-some :
      (h : ℕ) (s : S) (e : Entry) (kvs : Pairs) (b : BNode)
      (kid : Child pages (Holds pages h s) s e kvs)
      → kid.node ≡ b
      → 0 < length b.entries
  Child-some h s e kvs b kid same =
      subst (λ x. 0 < length x.entries) same
        (Holds-some pages h s kid.node (e.key, kid.val) kid.rest
          (subst (Holds pages h s kid.node) kid.starts kid.holds))

  -- Where a link in the place of others does not fit, the node was nearly full.
  link-IsNearlyFull :
      (n : BNode) (key : List ℕ) (p i j count : ℕ)
      → IsComplete n
      → i < j
      → j ≤ length n.entries
      → count + (j - i) ≡ n.nkeys + 1
      → length key ≤ btree_max_key_size
      → btree_page_size < used (splice n.entries i (link p key ∷ []) j)
      → IsNearlyFull n
  unfolding offset
  link-IsNearlyFull n key p i j count complete lt within counts short large = omega (
    arith,
    large,
    short,
    length-splice n.entries (link p key ∷ []) i j (omega arith) within,
    offset-splice n.entries (link p key ∷ []) i j (omega arith),
    some_offset (piece n.entries i j) (omega (arith, length-piece n.entries i j within)),
  )

  -- A link to a new page in the place of the links from `i` up to `j`.
  relinked :
      (h : ℕ) (s t : S) (n c : BNode) (i j count : ℕ) (before mid behind : Pairs)
      → IsComplete n
      → used n.entries ≤ btree_page_size
      → i < j
      → j ≤ length n.entries
      → count + (j - i) ≡ n.nkeys + 1
      → Extends pages s t
      → Part (Holds pages h t) c mid
      → Kids pages (Holds pages h s) s (take i n.entries) before
      → Kids pages (Holds pages h s) s (drop j n.entries) behind
      → Relinked n (suc h) s (before ++ (mid ++ behind)) (
          append_all btree_page_size
            (splice n.entries i (links pages (c ∷ []) t).0 j)
            (set_header bnode_node count)
          >>= beside pages (links pages (c ∷ []) t).1)
  relinked h s t n c i j count before mid behind complete small lt within counts ext part
        kids_before kids_behind =
      let parts : Parts (Holds pages h t) (c ∷ []) mid =
        (mid, [], part, refl, sym (append-nil mid)) in
      let es = (links pages (c ∷ []) t).0 in
      let u = (links pages (c ∷ []) t).1 in
      let (kids, ext') = links-Kids pages h (c ∷ []) t t mid (λ p live. (live, refl)) parts in
      let all : Extends pages s u = Extends-trans pages s t u ext ext' in
      let counted : count ≡ length (splice n.entries i es j) =
        omega (arith, length-splice n.entries es i j (omega arith) within, complete.counted) in
      let fits =
        All-splice n.entries es i j complete.fitting
          (links-Fits pages (Holds pages h t) (c ∷ []) t mid parts) in
      let move = λ (l : List Entry) (k : Pairs).
        Kids-Extends pages (Holds pages h s) (Holds pages h u) s u l k
          (λ b x. Holds-Extends pages h s u b x all) all in
      let whole =
        Kids-append pages (Holds pages h u) u (take i n.entries) (es ++ drop j n.entries) before
          (mid ++ behind) (move (take i n.entries) before kids_before)
          (Kids-append pages (Holds pages h u) u es (drop j n.entries) mid behind kids
            (move (drop j n.entries) behind kids_behind)) in
      elim (build_cases btree_page_size bnode_node count (splice n.entries i es j) (omega arith)
        fits counted (omega (arith, small, complete.counted))) [
          | inl (large, full) ↦ inl (
            link-IsNearlyFull n (get_key c 0) (pages.new_page t c).0 i j count complete lt within
                counts (get_key_limit c part.complete) large,
            ap (λ b. b >>= beside pages u) full,
          )
          | inr (built, room) ↦ inr (
            _,
            u,
            ap (λ b. b >>= beside pages u) built,
            all,
            record {
              complete = record { counted = counted; fitting = fits };
              small = room;
              holds = (refl, whole);
            },
          )
        ]

  -- A deletion from the child at the index: the node, the subtrees around the child, and what is left of it.
  module _ (h : ℕ) (s t : S) (ext : Extends pages s t) (n m : BNode) (complete : IsComplete n)
      (room : used n.entries ≤ btree_page_size) (i : ℕ) (f : Entry) (kvs left : Pairs)
      (r : Around pages (Holds pages h s) s n.entries i f kvs) (within : i < length n.entries)
      (shrunk : Shrunk h t m left) where
    emptied :
        m.nkeys ≡ 0
        → n.nkeys ≡ 1
        → i ≡ 0
        → Relinked n (suc h) s (r.before ++ (left ++ r.behind)) (ok (set_header bnode_node 0, t))
    unfolding offset
    emptied none_left one first =
        let a =
          Kids-empty pages (Holds pages h s) s (take i n.entries) r.before
            (omega (arith, length-take i n.entries, first)) r.kids_before in
        let b =
          Holds-empty pages h t m left (omega (arith, none_left, shrunk.complete.counted))
            shrunk.holds in
        let c =
          Kids-empty pages (Holds pages h s) s (drop (suc i) n.entries) r.behind
            (omega (arith, length-drop (suc i) n.entries, one, complete.counted)) r.kids_behind in
        let nothing_left : r.before ++ (left ++ r.behind) ≡ [] = rw (a, b, c) refl in
        inr (
          set_header bnode_node 0,
          t,
          refl,
          ext,
          record {
            complete = record { counted = refl; fitting = tt };
            small = omega arith;
            holds = (refl, nothing_left);
          },
        )

    -- The child itself in a new page.
    kept :
        0 < m.nkeys
        → Relinked n (suc h) s (r.before ++ (left ++ r.behind)) (relink pages n i m merge_none t)
    unfolding relink
    kept some_left =
        let keys : (m.nkeys == 0) ≡ false = ground (arith, some_left) in
        let part =
          Holds-Part pages h t m left shrunk.complete shrunk.small
            (omega (arith, some_left, shrunk.complete.counted)) shrunk.holds in
        rw (keys, node_replace_child_n-links pages btree_page_size n i (m ∷ []) t complete)
          (relinked h s t n m i (i + 1) (n.nkeys + 1 - 1) r.before left r.behind complete room
            (omega arith) (omega (arith, within)) (omega arith) ext part r.kids_before
            (subst (λ k. Kids pages (Holds pages h s) s (drop k n.entries) r.behind) {x = suc i}
              (omega arith) r.kids_behind))

    merged_left :
        (b : BNode)
        → LeftSide pages h s t ext n m complete shrunk.complete shrunk.small i r.before b
        → Relinked n
            (suc h)
            s
            (r.before ++ (left ++ r.behind))
            (relink pages n i m (merge_left b) t)
    unfolding relink
    merged_left b side =
        let u = pages.del t (get_ptr n (i - 1)) in
        let out = Extends-trans pages s t u ext (pages.del-keeps t (get_ptr n (i - 1))) in
        let cb : IsComplete b = subst IsComplete side.is_node side.kid.complete in
        let (done, c, fit) = node_merge-ok b m cb shrunk.complete side.room in
        let both =
          Holds-append pages h (b.nkeys + m.nkeys) u b m side.near left
            (Holds-Extends pages h s u b side.near out
              (subst (λ x. Holds pages h s x side.near) side.is_node side.kid.holds))
            (Holds-Extends pages h t u m left (pages.del-keeps t (get_ptr n (i - 1)))
              shrunk.holds) in
        let part =
          Holds-Part pages h u _ (side.near ++ left) c fit
            (omega (
              arith,
              length-append b.entries m.entries,
              Child-some h s side.e side.near b side.kid side.is_node,
            ))
            both in
        let same : side.far ++ ((side.near ++ left) ++ r.behind) ≡ r.before ++ (left ++ r.behind) =
          ap (λ l. side.far ++ l) (append_assoc side.near left r.behind)
          ∙ sym (append_assoc side.far side.near (left ++ r.behind))
          ∙ ap (λ l. l ++ (left ++ r.behind)) (sym side.whole) in
        rw
          (
            done,
            node_replace_2_child-pieces btree_page_size n (i - 1) (pages.new_page u _).0
                (get_key _ 0) complete,
          )
          (Relinked-same n (suc h) s _ _ same (
            relinked h s u n _ (i - 1) (i - 1 + 2) (n.nkeys - 1) side.far (side.near ++ left)
              r.behind complete room (omega arith) (omega (arith, within, side.next))
              (omega (arith, complete.counted, within, side.next)) out part
              (subst (λ k. Kids pages (Holds pages h s) s (take k n.entries) side.far) {x = side.j}
                (omega (arith, side.next)) side.kids)
              (subst (λ k. Kids pages (Holds pages h s) s (drop k n.entries) r.behind) {x = suc i}
                (omega (arith, side.next)) r.kids_behind)))

    merged_right :
        (b : BNode)
        → RightSide pages h s t ext n m complete shrunk.complete shrunk.small i r.behind b
        → Relinked n
            (suc h)
            s
            (r.before ++ (left ++ r.behind))
            (relink pages n i m (merge_right b) t)
    unfolding relink
    merged_right b side =
        let u = pages.del t (get_ptr n (i + 1)) in
        let out = Extends-trans pages s t u ext (pages.del-keeps t (get_ptr n (i + 1))) in
        let cb : IsComplete b = subst IsComplete side.is_node side.kid.complete in
        let (done, c, fit) = node_merge-ok m b shrunk.complete cb (omega (arith, side.room)) in
        let both =
          Holds-append pages h (m.nkeys + b.nkeys) u m b left side.near
            (Holds-Extends pages h t u m left (pages.del-keeps t (get_ptr n (i + 1))) shrunk.holds)
            (Holds-Extends pages h s u b side.near out
              (subst (λ x. Holds pages h s x side.near) side.is_node side.kid.holds)) in
        let part =
          Holds-Part pages h u _ (left ++ side.near) c fit
            (omega (
              arith,
              length-append m.entries b.entries,
              Child-some h s side.e side.near b side.kid side.is_node,
            ))
            both in
        let same : r.before ++ ((left ++ side.near) ++ side.far) ≡ r.before ++ (left ++ r.behind) =
          ap (λ l. r.before ++ l)
            (append_assoc left side.near side.far ∙ ap (λ l. left ++ l) (sym side.whole)) in
        rw
          (
            done,
            node_replace_2_child-pieces btree_page_size n i (pages.new_page u _).0 (get_key _ 0)
                complete,
          )
          (Relinked-same n (suc h) s _ _ same (
            relinked h s u n _ i (i + 2) (n.nkeys - 1) r.before (left ++ side.near) side.far
              complete room (omega arith) (omega (arith, side.within))
              (omega (arith, complete.counted, side.within)) out part r.kids_before
              (subst (λ k. Kids pages (Holds pages h s) s (drop k n.entries) side.far)
                {x = suc (suc i)} (omega arith) side.kids)))

    pub relink-Relinked :
        (side : Merge)
        → Side pages h s t ext n m complete shrunk.complete shrunk.small i r.before r.behind side
        → Relinked n (suc h) s (r.before ++ (left ++ r.behind)) (relink pages n i m side t)
    unfolding relink
    relink-Relinked (merge_left b) side = merged_left b side
    relink-Relinked (merge_right b) side = merged_right b side
    relink-Relinked merge_none side = elim (Bool-cases (m.nkeys == 0)) [
      | inl none_left ↦
          let empty : m.nkeys ≡ 0 = ground (arith, none_left) in
          let (one, first) = side empty in rw (none_left, one, first) (emptied empty one first)
      | inr some_left ↦ kept (ground (arith, some_left))
    ]
