-- ===== src/Storage/Tree/Links.antt =====
-- The links that node_replace_child_n and insert write, and the pages behind them.
use sqldb.Base.{
  ℕ, suc, ◌+◌, ◌-◌, ◌≡◌, refl, ap, ◌∙◌, List, [], ◌∷◌, ◌++◌, length, length-drop, take, drop, ok,
  ◌>>=◌, Result-cases, inl, inr, arith,
}
use sqldb.Storage.SortedMap.{Pairs}
use sqldb.Storage.Node.{
  Entry, BNode, get_key, link, set_header, node_append_kv, append_all, node_append_range,
  bnode_node,
}
use sqldb.Storage.Node.Build.{IsComplete, splice, take_all, append_all-append}
use sqldb.Storage.PageManager.{PageManager}
use sqldb.Storage.Tree.{Step, append_children, node_replace_child_n}
use sqldb.Storage.Tree.Shape.{
  Child, Kids, Holds, Holds-Extends, Extends, Extends-refl, Extends-trans,
}
use sqldb.Storage.Tree.Parts.{Parts}

module _ {S : Type 0} (pages : PageManager S) where
  -- The links to new pages for the nodes, and the pages behind that.
  abbrev pub links : List BNode → S → List Entry × S
  links [] s = ([], s)
  links (n ∷ ns) s =
      let (p, t) = pages.new_page s n in let (es, u) = links ns t in (link p (get_key n 0) ∷ es, u)

  pub length-links : (ns : List BNode) (s : S) → length (links ns s).0 ≡ length ns
  length-links [] s = refl
  length-links (n ∷ ns) s = ap suc (length-links ns (pages.new_page s n).1)

  -- A node together with the pages.
  abbrev pub beside : S → BNode → Step S
  beside s n = ok (n, s)

  pub append_children-links :
      (size : ℕ) (ns : List BNode) (n : BNode) (s : S)
      → append_children pages size ns n s
        ≡ (append_all size (links ns s).0 n >>= beside (links ns s).1)
  unfolding append_children append_all
  append_children-links size [] n s = refl
  append_children-links size (c ∷ ns) n s =
      elim (Result-cases (node_append_kv size (link (pages.new_page s c).0 (get_key c 0)) n)) [
        | inl (m, e) ↦ rw e (append_children-links size ns m (pages.new_page s c).1)
        | inr (why, e) ↦ rw e refl
      ]

  three_pieces :
      (size : ℕ) (es gs : List Entry) (ns : List BNode) (s : S) (start : BNode)
      → (append_all size es start >>= λ a.
          append_children pages size ns a s >>= λ r. append_all size gs r.0 >>= λ c. beside r.1 c)
        ≡ (append_all size (es ++ ((links ns s).0 ++ gs)) start >>= beside (links ns s).1)
  three_pieces size es gs ns s start = elim (Result-cases (append_all size es start)) [
    | inr (why, e) ↦ rw (append_all-append size es ((links ns s).0 ++ gs) start, e) refl
    | inl (m, e) ↦
        rw (append_all-append size es ((links ns s).0 ++ gs) start, e)
          (rw (append_children-links size ns m s, append_all-append size (links ns s).0 gs m)
            (elim (Result-cases (append_all size (links ns s).0 m)) [
              | inr (why, e') ↦ rw e' refl
              | inl (k, e') ↦ rw e' refl
            ]))
  ]

  -- node_replace_child_n puts the links to the new pages in the place of the link at the index.
  pub node_replace_child_n-links :
      (size : ℕ) (old : BNode) (idx : ℕ) (ns : List BNode) (s : S)
      → IsComplete old
      → node_replace_child_n pages size old idx ns s ≡ (
          append_all size
            (splice old.entries idx (links ns s).0 (idx + 1))
            (set_header bnode_node (old.nkeys + length ns - 1))
          >>= beside (links ns s).1)
  unfolding node_replace_child_n node_append_range
  node_replace_child_n-links size old idx ns s complete =
      let rest =
        take_all (old.nkeys - (idx + 1)) (drop (idx + 1) old.entries)
          (omega (arith, length-drop (idx + 1) old.entries, complete.counted)) in
      let start = set_header bnode_node (old.nkeys + length ns - 1) in
      rw rest (three_pieces size (take idx old.entries) (drop (idx + 1) old.entries) ns s start)

  links-Extends : (ns : List BNode) (s : S) → Extends pages s (links ns s).1
  links-Extends [] s = Extends-refl pages s
  links-Extends (n ∷ ns) s =
      Extends-trans pages s (pages.new_page s n).1 _ (pages.new_page-keeps s n)
        (links-Extends ns (pages.new_page s n).1)

  -- The new pages hold the nodes, and what was there stays.
  pub links-Kids :
      (h : ℕ) (ns : List BNode) (r s : S) (kvs : Pairs)
      → Extends pages r s
      → Parts (Holds pages h r) ns kvs
      → Kids pages (Holds pages h (links ns s).1) (links ns s).1 (links ns s).0 kvs
        × Extends pages r (links ns s).1
  links-Kids h [] r s kvs ext parts = (parts, ext)
  links-Kids h (n ∷ ns) r s kvs ext (xs, ys, part, parts, eq) =
      let p = (pages.new_page s n).0 in
      let t = (pages.new_page s n).1 in
      let (later, all) =
        links-Kids h ns r t ys (Extends-trans pages r s t ext (pages.new_page-keeps s n)) parts in
      let (live, same) = links-Extends ns t p (pages.new_page-live s n) in
      let child : Child pages (Holds pages h (links ns t).1) (links ns t).1 (link p (get_key n 0))
          xs =
        record {
          node = n;
          val = part.val;
          rest = part.rest;
          starts = part.starts;
          bare = refl;
          alive = live;
          stored = same ∙ pages.get-new_page s n part.complete part.small;
          complete = part.complete;
          small = part.small;
          holds = Holds-Extends pages h r (links ns t).1 n xs all part.holds;
        } in
      ((xs, ys, child, later, eq), all)
