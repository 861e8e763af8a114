-- ===== src/Storage/Tree/Delete/Siblings.antt =====
-- should_merge names a sibling that fits into a page together with the node, and always one where the node
-- is empty and has a sibling.
use sqldb.Base.{
  ℕ, suc, ◌+◌, ◌-◌, ◌/◌, ◌≤◌, ◌<◌, ◌≡◌, refl, ap, ◌∙◌, subst, true, List, [], ◌∷◌, ◌++◌, length,
  take, drop, get_elem?-some, ltb, if◌then◌else◌, ok, Bool-cases, inl, inr, arith,
}
use sqldb.Storage.SortedMap.{Pairs}
use sqldb.Storage.Node.{Entry, BNode, nbytes, offset, get_ptr, btree_page_size}
use sqldb.Storage.Node.Build.{IsComplete, used}
use sqldb.Storage.Node.Split.{nbytes-used}
use sqldb.Storage.Node.Lookup.{get_ptr_at}
use sqldb.Storage.PageManager.{PageManager}
use sqldb.Storage.Tree.Delete.{
  Merge, merge_none, merge_left, merge_right, fits_with, try_sibling, should_merge,
}
use sqldb.Storage.Tree.Delete.Pieces.{Kids-last, Kids-next}
use sqldb.Storage.Tree.Shape.{Child, Kids, Holds, Around, Extends}

no_entries : (es : List Entry) → length es ≡ 0 → offset es ≡ 0
unfolding offset
no_entries [] h = refl
no_entries (e ∷ es) h = absurd (omega arith)

module _ {S : Type 0} (pages : PageManager S) (h : ℕ) (s t : S) (ext : Extends pages s t)
    (n m : BNode) (complete : IsComplete n) (updated : IsComplete m)
    (small : used m.entries ≤ btree_page_size) where
  -- The subtree before the one at the index, as the sibling to merge with.
  pub record LeftSide (i : ℕ) (before : Pairs) (b : BNode) : Type 0 where
    pub j : ℕ
    pub next : i ≡ suc j
    pub e : Entry
    pub far : Pairs
    pub near : Pairs
    pub kids : Kids pages (Holds pages h s) s (take j n.entries) far
    pub kid : Child pages (Holds pages h s) s e near
    pub whole : before ≡ far ++ near
    pub is_node : kid.node ≡ b
    pub room : used b.entries + used m.entries ≤ btree_page_size + 4

  -- The one behind it.
  pub record RightSide (i : ℕ) (behind : Pairs) (b : BNode) : Type 0 where
    pub e : Entry
    pub near : Pairs
    pub far : Pairs
    pub within : suc i < length n.entries
    pub kid : Child pages (Holds pages h s) s e near
    pub kids : Kids pages (Holds pages h s) s (drop (suc (suc i)) n.entries) far
    pub whole : behind ≡ near ++ far
    pub is_node : kid.node ≡ b
    pub room : used b.entries + used m.entries ≤ btree_page_size + 4

  abbrev pub Side : ℕ → Pairs → Pairs → Merge → Type 0
  Side i before behind merge_none = m.nkeys ≡ 0 → (n.nkeys ≡ 1) × (i ≡ 0)
  Side i before behind (merge_left b) = LeftSide i before b
  Side i before behind (merge_right b) = RightSide i behind b

  nbytes_small :
      (b : BNode) → IsComplete b → used b.entries ≤ btree_page_size → nbytes b ≡ used b.entries
  nbytes_small b c le = nbytes-used b c (omega (arith, le))

  -- An empty node fits with every other.
  empty_fits :
      (b : BNode)
      → IsComplete b
      → used b.entries ≤ btree_page_size
      → m.nkeys ≡ 0
      → fits_with b m ≡ true
  empty_fits b c le none_left =
      let here : nbytes m ≡ 4 = omega (
        arith,
        nbytes_small m updated small,
        updated.counted,
        no_entries m.entries (omega (arith, updated.counted)),
      ) in
      let there = nbytes_small b c le in ground (arith, here, there, le)

  fits_room :
      (b : BNode)
      → IsComplete b
      → used b.entries ≤ btree_page_size
      → fits_with b m ≡ true
      → used b.entries + used m.entries ≤ btree_page_size + 4
  fits_room b c le fits =
      let here = nbytes_small m updated small in
      let there = nbytes_small b c le in ground (arith, here, there, fits)

  right-Side :
      (i : ℕ) (before behind : Pairs)
      → i < length n.entries
      → Kids pages (Holds pages h s) s (drop (suc i) n.entries) behind
      → (m.nkeys ≡ 0 → i ≡ 0)
      → (side : Merge) × ((if ltb (i + 1) n.nkeys
            then try_sibling pages t n (i + 1) m merge_right (ok merge_none)
            else ok merge_none)
          ≡ ok side)
        × Side i before behind side
  unfolding try_sibling
  right-Side i before behind within kids first =
      let next : i + 1 ≡ suc i = omega arith in
      elim (Bool-cases (ltb (i + 1) n.nkeys)) [
        | inr last ↦ (merge_none, rw last refl, λ z. (ground (arith, complete.counted), first z))
        | inl more ↦
            let lt : suc i < length n.entries = ground (arith, complete.counted) in
            let (e, at) = get_elem?-some n.entries (suc i) lt in
            let (near, far, kid, rest, whole) =
              Kids-next pages (Holds pages h s) s n.entries (suc i) e behind at kids in
            let stored : pages.get t (get_ptr n (i + 1)) ≡ ok kid.node =
              ap (λ k. pages.get t (get_ptr n k)) next
              ∙ ap (pages.get t) (get_ptr_at n (suc i) e at)
              ∙ (ext e.ptr kid.alive).1
              ∙ kid.stored in
            elim (Bool-cases (fits_with kid.node m)) [
              | inl fits ↦ (
                merge_right kid.node,
                rw (more, stored, fits) refl,
                record {
                  e = e;
                  near = near;
                  far = far;
                  within = lt;
                  kid = kid;
                  kids = rest;
                  whole = whole;
                  is_node = refl;
                  room = fits_room kid.node kid.complete kid.small fits;
                },
              )
              | inr large ↦ (
                merge_none,
                rw (more, stored, large) refl,
                λ z. absurd (ground (arith, large, empty_fits kid.node kid.complete kid.small z)),
              )
            ]
      ]

  -- Whatever should_merge chooses, it returns, and the choice is sound.
  pub should_merge-Side :
      (i : ℕ) (f : Entry) (kvs : Pairs) (r : Around pages (Holds pages h s) s n.entries i f kvs)
      → i < length n.entries
      → (side : Merge) × (should_merge pages t n i m ≡ ok side) × Side i r.before r.behind side
  unfolding should_merge try_sibling
  should_merge-Side i f kvs r within = elim (Bool-cases (ltb (btree_page_size / 4) (nbytes m))) [
    | inl large ↦ (
      merge_none,
      rw large refl,
      λ z.
          let none_left = no_entries m.entries (omega (arith, updated.counted, z)) in
          absurd
            (ground (arith, large, nbytes_small m updated small, updated.counted, z, none_left)),
    )
    | inr few ↦ elim (Bool-cases (ltb 0 i)) [
      | inr first ↦
          let (side, e, sound) =
            right-Side i r.before r.behind within r.kids_behind (λ z. ground (arith, first)) in
          (side, rw (few, first) e, sound)
      | inl later ↦
          let j = i - 1 in
          let next : i ≡ suc j = ground (arith, later) in
          let (e, at) = get_elem?-some n.entries j (omega (arith, within)) in
          let (far, near, kids, kid, whole) =
            Kids-last pages (Holds pages h s) s n.entries j e r.before at (
              subst (λ k. Kids pages (Holds pages h s) s (take k n.entries) r.before) next
                r.kids_before) in
          let stored : pages.get t (get_ptr n (i - 1)) ≡ ok kid.node =
            ap (pages.get t) (get_ptr_at n j e at) ∙ (ext e.ptr kid.alive).1 ∙ kid.stored in
          elim (Bool-cases (fits_with kid.node m)) [
            | inl fits ↦ (
              merge_left kid.node,
              rw (few, later, stored, fits) refl,
              record {
                j = j;
                next = next;
                e = e;
                far = far;
                near = near;
                kids = kids;
                kid = kid;
                whole = whole;
                is_node = refl;
                room = fits_room kid.node kid.complete kid.small fits;
              },
            )
            | inr large ↦
                let (side, g, sound) = right-Side i r.before r.behind within r.kids_behind (λ z.
                  absurd (ground (arith, large, empty_fits kid.node kid.complete kid.small z))) in
                (side, rw (few, later, stored, large) g, sound)
          ]
    ]
  ]
