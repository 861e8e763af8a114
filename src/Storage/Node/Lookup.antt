-- ===== src/Storage/Node/Lookup.antt =====
-- The binary search of node_lookup_le.
use sqldb.Base.{
  ℕ, zero, suc, ◌+◌, ◌-◌, ◌/◌, ◌≤◌, ◌<◌, ◌≡◌, ◌≢◌, refl, List, [], ◌∷◌, map, Option, none, some,
  length, get_elem?, ltb, Ordering, Bytes, lex, lex_swap, lex_trans, lex-eq, Bool-cases, inl, inr,
  arith, subst, ap,
}
use sqldb.Storage.SortedMap.{Ordering-cases, Pairs, Less, AllAbove, Sorted}
use sqldb.Storage.Node.{Entry, BNode, get_key, get_val, get_ptr, lookup_loop, node_lookup_le}

-- The keys and values of entries.
abbrev pub pairs : List Entry → Pairs
pairs = map (λ e. (e.key, e.val))

abbrev key_at : List Entry → ℕ → Bytes
key_at [] i = []
key_at (e ∷ es) zero = e.key
key_at (e ∷ es) (suc i) = key_at es i

get_key-key_at : (n : BNode) (i : ℕ) → get_key n i ≡ key_at n.entries i
unfolding get_key
get_key-key_at n i = go n.entries i
  where
    go :
        (es : List Entry) (i : ℕ)
        → elim (get_elem? es i) as (λ _. Bytes) [ none ↦ [] | some e ↦ e.key ] ≡ key_at es i
    go [] i = refl
    go (e ∷ es) zero = refl
    go (e ∷ es) (suc i) = go es i

AllAbove-key_at :
    (a : Bytes) (es : List Entry) (i : ℕ)
    → AllAbove a (pairs es)
    → i < length es
    → Less a (key_at es i)
AllAbove-key_at a [] i h k = absurd (omega arith)
AllAbove-key_at a (e ∷ es) zero (h, hs) k = h
AllAbove-key_at a (e ∷ es) (suc i) (h, hs) k = AllAbove-key_at a es i hs (omega arith)

-- In a sorted node the keys grow with their index.
Sorted-key_at :
    (es : List Entry) (i j : ℕ)
    → Sorted (pairs es)
    → i < j
    → j < length es
    → Less (key_at es i) (key_at es j)
Sorted-key_at [] i j h lt k = absurd (omega arith)
Sorted-key_at (e ∷ es) i zero h lt k = absurd (omega arith)
Sorted-key_at (e ∷ es) zero (suc j) (h, hs) lt k = AllAbove-key_at e.key es j h (omega arith)
Sorted-key_at (e ∷ es) (suc i) (suc j) (h, hs) lt k =
    Sorted-key_at es i j hs (omega arith) (omega arith)

pub get_key-Sorted :
    (n : BNode) (i j : ℕ)
    → Sorted (pairs n.entries)
    → i < j
    → j < length n.entries
    → Less (get_key n i) (get_key n j)
get_key-Sorted n i j h lt k =
    rw (get_key-key_at n i, get_key-key_at n j) (Sorted-key_at n.entries i j h lt k)

-- Where a key belongs among those of a node: at the last key that is not above it, if there is one.
abbrev pub IsFloor : BNode → Bytes → Option ℕ → Type 0
IsFloor n key none = (j : ℕ) → j < length n.entries → Less key (get_key n j)
IsFloor n key (some i) =
    (i < length n.entries)
    × (lex (get_key n i) key ≢ Ordering.gt)
    × ((j : ℕ) → i < j → j < length n.entries → Less key (get_key n j))

-- What stands before a position.
abbrev before : ℕ → Option ℕ
before zero = none
before (suc i) = some i

before_next : (m k : ℕ) → k ≡ m + 1 → some m ≡ before k
before_next m zero h = absurd (omega arith)
before_next m (suc k) h = ap some (omega arith)

-- A key that is not above the one at `mid` is above none behind it.
not_below_mid :
    (n : BNode) (key : Bytes) (mid j : ℕ)
    → Sorted (pairs n.entries)
    → lex (get_key n mid) key ≡ Ordering.gt
    → mid ≤ j
    → j < length n.entries
    → Less key (get_key n j)
not_below_mid n key mid j sorted greater le lt =
    let here : Less key (get_key n mid) = ground (arith, greater, lex_swap (get_key n mid) key) in
    elim (Bool-cases (ltb mid j)) [
      | inl less ↦
          lex_trans key (get_key n mid) (get_key n j) here
            (get_key-Sorted n mid j sorted (ground arith) lt)
      | inr same ↦ let e : mid ≡ j = ground arith in subst (λ k. Less key (get_key n k)) e here
    ]

ends-IsFloor :
    (n : BNode) (key : Bytes) (lo : ℕ)
    → lo ≤ length n.entries
    → ((i : ℕ) → lo ≡ suc i → Less (get_key n i) key)
    → ((j : ℕ) → lo ≤ j → j < length n.entries → Less key (get_key n j))
    → IsFloor n key (before lo)
ends-IsFloor n key zero within below above = λ j. above j (omega arith)
ends-IsFloor n key (suc i) within below above =
    (omega arith, ground (arith, below i refl), λ j lt. above j (omega arith))

lookup_loop-IsFloor :
    (n : BNode) (key : Bytes)
    → Sorted (pairs n.entries)
    → (fuel lo end : ℕ) (result : Option ℕ) → end ≤ lo + fuel
    → lo ≤ end
    → end ≤ length n.entries
    → result ≡ before lo
    → ((i : ℕ) → lo ≡ suc i → Less (get_key n i) key)
    → ((j : ℕ) → end ≤ j → j < length n.entries → Less key (get_key n j))
    → IsFloor n key (lookup_loop fuel n key lo end result)
unfolding lookup_loop
lookup_loop-IsFloor n key sorted zero lo end result enough le within at below above =
    let same : end ≡ lo = omega arith in
    rw at (ends-IsFloor n key lo (omega arith) below (λ j le. above j (omega arith)))
lookup_loop-IsFloor n key sorted (suc fuel) lo end result enough le within at below above =
    let mid = lo + (end - 1 - lo) / 2 in
    elim (Bool-cases (ltb lo end)) [
      | inr over ↦
          rw over
            (rw at (ends-IsFloor n key lo (omega arith) below (λ j le. above j (ground arith))))
      | inl inside ↦
          let lt : lo < end = ground arith in
          elim (Ordering-cases (lex (get_key n mid) key)) [
            | inl (inl less) ↦
                rw (inside, less)
                  (lookup_loop-IsFloor n key sorted fuel (mid + 1) end (some mid) (omega arith)
                    (omega arith) within (before_next mid (mid + 1) refl)
                    (λ i e.
                      let here : mid ≡ i = omega (arith, e) in
                      subst (λ k. Less (get_key n k) key) here less)
                    above)
            | inl (inr same) ↦
                rw (inside, same)
                  (
                    omega arith,
                    ground (arith, same),
                    λ j past lt'.
                        subst (λ k. Less k (get_key n j)) (lex-eq (get_key n mid) key same)
                          (get_key-Sorted n mid j sorted past lt'),
                  )
            | inr greater ↦
                rw (inside, greater)
                  (lookup_loop-IsFloor n key sorted fuel lo mid result (omega arith) (omega arith)
                    (omega arith) at below
                    (λ j le lt'. not_below_mid n key mid j sorted greater le lt'))
          ]
    ]

-- In a node whose keys are sorted and whose header counts its entries, node_lookup_le returns the last
-- position whose key is not above the given one, and none where all keys are above it.
pub node_lookup_le-IsFloor :
    (n : BNode) (key : Bytes)
    → n.nkeys ≡ length n.entries
    → Sorted (pairs n.entries)
    → IsFloor n key (node_lookup_le n key)
unfolding node_lookup_le
node_lookup_le-IsFloor n key count sorted =
    lookup_loop-IsFloor n key sorted n.nkeys 0 n.nkeys none (omega arith) (omega arith)
      (omega (arith, count)) refl (λ i e. absurd (omega arith))
      (λ j le lt. absurd (omega (arith, count)))

pub get_key_at :
    (n : BNode) (i : ℕ) (e : Entry) → get_elem? n.entries i ≡ some e → get_key n i ≡ e.key
unfolding get_key
get_key_at n i e at = ground (arith, at)

pub get_val_at :
    (n : BNode) (i : ℕ) (e : Entry) → get_elem? n.entries i ≡ some e → get_val n i ≡ e.val
unfolding get_val
get_val_at n i e at = ground (arith, at)

pub get_ptr_at :
    (n : BNode) (i : ℕ) (e : Entry) → get_elem? n.entries i ≡ some e → get_ptr n i ≡ e.ptr
unfolding get_ptr
get_ptr_at n i e at = ground (arith, at)
