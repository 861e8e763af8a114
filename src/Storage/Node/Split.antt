-- ===== src/Storage/Node/Split.antt =====
-- node_split cuts a node that one insertion has made too large into two that fit into a page.
use sqldb.Base.{
  ℕ, zero, suc, ◌+◌, ◌-◌, ◌*◌, ◌/◌, ◌≤◌, ◌<◌, ◌≡◌, refl, ap, true, List, [], ◌∷◌, length,
  length-take, length-drop, take, drop, ltb, leb, Bool-cases, inl, inr, ok, All, arith,
}
use sqldb.Storage.Node.{
  Entry, BNode, offset, nbytes, node_append_range, left_bytes, right_bytes, shrink_left, grow_left,
  split_point, node_split, btree_page_size,
}
use sqldb.Storage.Node.Build.{
  Fits, used, IsComplete, All-take, All-drop, take_all, offset-take-drop, build-ok,
}

-- The most that an entry adds to a node.
abbrev pub max_entry : ℕ
max_entry = 2014

-- The bytes of the first `k` entries as a node.
abbrev front : List Entry → ℕ → ℕ
front es k = 4 + 10 * k + offset (take k es)

front_step :
    (es : List Entry) (k : ℕ) → All Fits es → offset (take (suc k) es) ≤ offset (take k es) + 2004
unfolding offset
front_step [] zero h = omega arith
front_step [] (suc k) h = omega arith
front_step (e ∷ es) zero (h, hs) = omega (arith, h.0, h.1)
front_step (e ∷ es) (suc k) (h, hs) = omega (arith, front_step es k hs)

offset_le : (es : List Entry) → All Fits es → offset es ≤ 2004 * length es
unfolding offset
offset_le [] h = omega arith
offset_le (e ∷ es) (h, hs) = omega (arith, h.0, h.1, offset_le es hs)

take_le : (es : List Entry) (k : ℕ) → offset (take k es) ≤ offset es
take_le es k = omega (arith, offset-take-drop k es)

module _ (old : BNode) (complete : IsComplete old)
    (bound : used old.entries ≤ btree_page_size + max_entry) where
  pub nbytes-used : nbytes old ≡ used old.entries
  nbytes-used = omega (arith, complete.counted)

  left_bytes-front : (k : ℕ) → k ≤ old.nkeys → left_bytes old k ≡ front old.entries k
  left_bytes-front k h = omega (arith, complete.counted, take_le old.entries k)

  right_bytes-front :
      (k : ℕ) → k ≤ old.nkeys → right_bytes old k + front old.entries k ≡ used old.entries + 4
  right_bytes-front k h =
      omega (arith, complete.counted, take_le old.entries k, left_bytes-front k h, nbytes-used)

  shrink_left-fits :
      (k : ℕ)
      → k ≤ old.nkeys
      → (shrink_left old k ≤ k)
        × (front old.entries (shrink_left old k) ≤ btree_page_size)
        × (0 < k → 0 < shrink_left old k)
  unfolding shrink_left offset
  shrink_left-fits zero h = omega arith
  shrink_left-fits (suc zero) h =
      ground (arith, left_bytes-front 1 h, front_step old.entries 0 complete.fitting)
  shrink_left-fits (suc (suc k)) h =
      ground (arith, shrink_left-fits (suc k) (omega arith), left_bytes-front (suc (suc k)) h)

  -- Behind the last entry there is nothing.
  front_whole : (k : ℕ) → old.nkeys ≤ k → offset (take k old.entries) ≡ offset old.entries
  front_whole k h = ap offset (take_all k old.entries (omega (arith, complete.counted)))

  grow_left-fits :
      (fuel k : ℕ)
      → old.nkeys ≤ k + fuel
      → k ≤ old.nkeys
      → btree_page_size < used old.entries
      → front old.entries k ≤ btree_page_size
      → (k ≤ grow_left fuel old k)
        × (grow_left fuel old k < old.nkeys)
        × (front old.entries (grow_left fuel old k) ≤ btree_page_size)
        × (right_bytes old (grow_left fuel old k) ≤ btree_page_size)
  unfolding grow_left
  grow_left-fits zero k enough within large fits =
      absurd (omega (arith, front_whole k (omega arith), complete.counted))
  grow_left-fits (suc fuel) k enough within large fits =
      let room : k < old.nkeys = elim (Bool-cases (ltb k old.nkeys)) [
        | inl lt ↦ ground arith
        | inr ge ↦ absurd (ground (arith, front_whole k, complete.counted))
      ] in
      let same : suc k ≡ k + 1 = omega arith in
      elim (Bool-cases (ltb btree_page_size (right_bytes old k))) [
        | inl more ↦ rw more (
            let deeper = grow_left-fits fuel (k + 1) (omega arith) (omega arith) large (
              ground (
                arith,
                right_bytes-front k within,
                front_step old.entries k complete.fitting,
                ap (λ n. offset (take n old.entries)) same,
              )) in
            (omega arith, deeper.1, deeper.2, deeper.3))
        | inr enough_left ↦ rw enough_left (omega arith, room, fits, ground arith)
      ]

  -- A node that is larger than a page, by one entry at most, is split into two whole nodes, each of
  -- which fits into a page and holds an entry at least. The left one has the entries before some
  -- position, and the right one those from it on.
  pub node_split-ok :
      btree_page_size < used old.entries
      → (k : ℕ) × (0 < k)
        × (k < old.nkeys)
        × (node_split old
            ≡ ok (
              record { btype = old.btype; nkeys = k; entries = take k old.entries },
              record { btype = old.btype; nkeys = old.nkeys - k; entries = drop k old.entries },
            ))
        × (used (take k old.entries) ≤ btree_page_size)
        × (used (drop k old.entries) ≤ btree_page_size)
  unfolding node_split node_append_range split_point
  node_split-ok large =
      let start = shrink_left old (old.nkeys / 2) in
      let (a, b, c) = shrink_left-fits (old.nkeys / 2) (omega arith) in
      let (d, e, f, g) = grow_left-fits old.nkeys start (omega arith) (omega arith) large b in
      let k = split_point old in
      let many : 2 ≤ old.nkeys =
        omega (arith, offset_le old.entries complete.fitting, complete.counted) in
      let right : right_bytes old k + front old.entries k ≡ used old.entries + 4 =
        right_bytes-front k (omega arith) in
      let left_fits : used (take k old.entries) ≤ btree_page_size =
        omega (arith, length-take k old.entries, complete.counted) in
      let right_fits : used (drop k old.entries) ≤ btree_page_size =
        omega
          (arith, length-drop k old.entries, complete.counted, offset-take-drop k old.entries) in
      let built_left =
        build-ok btree_page_size old.btype k (take k old.entries) (omega arith)
          (All-take Fits k old.entries complete.fitting)
          (omega (arith, length-take k old.entries, complete.counted)) left_fits in
      let built_right =
        build-ok btree_page_size old.btype (old.nkeys - k) (drop k old.entries) (omega arith)
          (All-drop Fits k old.entries complete.fitting)
          (omega (arith, length-drop k old.entries, complete.counted)) right_fits in
      let rest =
        take_all (old.nkeys - k) (drop k old.entries)
          (omega (arith, length-drop k old.entries, complete.counted)) in
      let t1 : leb 2 old.nkeys ≡ true = ground arith in
      let t2 : leb 1 start ≡ true = ground arith in
      let t3 : ltb k old.nkeys ≡ true = ground arith in
      let t4 : leb (nbytes (record { btype = old.btype; nkeys = k; entries = take k old.entries }))
            btree_page_size
          ≡ true =
        ground (arith, left_fits, length-take k old.entries, complete.counted) in
      let t5 : leb
            (nbytes
              (record { btype = old.btype; nkeys = old.nkeys - k; entries = drop k old.entries }))
            btree_page_size
          ≡ true =
        ground (arith, right_fits, length-drop k old.entries, complete.counted) in
      (
        k,
        omega arith,
        e,
        rw (t1, t2, t3, built_left, rest, built_right, t4, t5) refl,
        left_fits,
        right_fits,
      )
