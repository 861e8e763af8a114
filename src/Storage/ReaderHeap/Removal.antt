-- ===== src/Storage/ReaderHeap/Removal.antt =====
-- remove keeps the heap order.
use sqldb.Base.{
  get_elem?-some, ℕ, zero, suc, ◌+◌, ◌-◌, ◌*◌, ◌<◌, ◌≤◌, ◌≡◌, ◌≢◌, refl, true, false, List, [], ◌∷◌,
  none, length, get_elem?, take, ltb, if◌then◌else◌, ℤ, pos, negsuc, arith, Option-cases,
  Bool-cases, inl, inr, ◌⊎◌, ok, subst, ok-injective, sym, ap, ◌∙◌, lt→ltb,
}
use sqldb.Storage.ReaderHeap.{
  ReaderHeap, less, swap, older_kid, down_loop, down, up, sift, remove, remove_at, set_index,
}
use sqldb.Storage.ReaderHeap.Slots.{pop_last}
use sqldb.Storage.ReaderHeap.Order.{
  up_loop-Ordered, Ordered, OrderedAcross, OrderedBut, parent, version_at-swap, less-version_at,
  get_elem?-none, length-swap,
}

-- No reader is older than the one above it, but for those right below slot `i`.
abbrev OrderedAbove : ℕ → ReaderHeap → Type 0
OrderedAbove i h = (k : ℕ) → 0 < k → parent k ≢ i → less h k (parent k) ≡ false

-- The kid that down compares with: below the slot, and no other kid is older.
older_kid-oldest :
    (h : ReaderHeap) (i k : ℕ)
    → 2 * i + 1 < length h.items
    → 0 < k
    → parent k ≡ i
    → less h k (older_kid h i) ≡ false
unfolding older_kid
older_kid-oldest h i k within hk below = ground (
  arith,
  less-version_at h k (2 * i + 1),
  less-version_at h k (2 * i + 1 + 1),
  less-version_at h (2 * i + 1 + 1) (2 * i + 1),
  get_elem?-none h.items k,
)

older_kid-kid :
    (h : ReaderHeap) (i : ℕ)
    → 2 * i + 1 < length h.items
    → (parent (older_kid h i) ≡ i)
      × (0 < older_kid h i)
      × (i < older_kid h i)
      × (older_kid h i < length h.items)
unfolding older_kid
older_kid-kid h i within = ground arith

module _ (h : ReaderHeap) (i kid : ℕ) (at : parent kid ≡ i) (pos_kid : 0 < kid)
    (within : kid < length h.items) (oldest : (k : ℕ) → 0 < k → parent k ≡ i → less h k kid ≡ false)
    (moves : less h kid i ≡ true) where
  swap-OrderedAbove :
      ((k : ℕ) → 0 < k → k ≢ i → parent k ≢ i → less h k (parent k) ≡ false)
      → OrderedAcross i h
      → OrderedAbove kid (swap h i kid)
  swap-OrderedAbove above across k hk off =
      let (a, e) = get_elem?-some h.items kid within in
      let (b, f) = get_elem?-some h.items i (omega arith) in
      ground (
        arith,
        e,
        f,
        version_at-swap h i kid k (omega arith) within,
        version_at-swap h i kid (parent k) (omega arith) within,
        less-version_at (swap h i kid) k (parent k),
        less-version_at h k (parent k),
        less-version_at h kid i,
        less-version_at h k kid,
        less-version_at h kid (parent i),
        above k hk,
        across kid pos_kid,
        oldest k hk,
        moves,
        at,
      )

  swap-Across :
      ((k : ℕ) → 0 < k → k ≢ i → parent k ≢ i → less h k (parent k) ≡ false)
      → OrderedAcross kid (swap h i kid)
  swap-Across above c hc hk below = ground (
    arith,
    version_at-swap h i kid c (omega arith) within,
    version_at-swap h i kid (parent kid) (omega arith) within,
    less-version_at (swap h i kid) c (parent kid),
    less-version_at h c kid,
    above c hc (omega arith) (omega arith),
    at,
    below,
  )

-- Where the older kid is not older than the slot, none is.
stays_at :
    (h : ReaderHeap) (i k : ℕ)
    → 2 * i + 1 < length h.items
    → less h (older_kid h i) i ≡ false
    → 0 < k
    → (parent k ≢ i → less h k (parent k) ≡ false)
    → less h k (parent k) ≡ false
stays_at h i k within stays hk above =
    let (at, pos_kid, deeper, inside) = older_kid-kid h i within in
    let (a, e) = get_elem?-some h.items (older_kid h i) inside in
    ground (
      arith,
      e,
      above,
      older_kid-oldest h i k within hk,
      stays,
      less-version_at h k (parent k),
      less-version_at h k (older_kid h i),
      less-version_at h (older_kid h i) i,
    )

down_loop-Ordered :
    (fuel : ℕ) (h : ReaderHeap) (i : ℕ)
    → length h.items ≤ i + fuel
    → OrderedAbove i h
    → OrderedAcross i h
    → Ordered (down_loop fuel h i).0
unfolding down_loop
down_loop-Ordered zero h i enough above across =
    λ k hk. ground (arith, above k hk, less-version_at h k (parent k), get_elem?-none h.items k)
down_loop-Ordered (suc fuel) h i enough above across =
    elim (Bool-cases (ltb (2 * i + 1) (length h.items))) [
      | inr leaf ↦ rw leaf (λ k hk.
          ground
            (arith, leaf, above k hk, less-version_at h k (parent k), get_elem?-none h.items k))
      | inl inner ↦
          let (at, pos_kid, deeper, within) = older_kid-kid h i (ground arith) in
          elim (Bool-cases (less h (older_kid h i) i)) [
            | inr stays ↦
                rw (inner, stays) (λ k hk. stays_at h i k (ground arith) stays hk (above k hk))
            | inl moves ↦
                rw (inner, moves)
                  (down_loop-Ordered fuel (swap h i (older_kid h i)) (older_kid h i)
                    (omega (arith, length-swap h i (older_kid h i)))
                    (swap-OrderedAbove h i (older_kid h i) at pos_kid within
                      (λ k hk below. older_kid-oldest h i k (ground arith) hk below) moves
                      (λ k hk _. above k hk) across)
                    (swap-Across h i (older_kid h i) at pos_kid within
                      (λ k hk below. older_kid-oldest h i k (ground arith) hk below) moves
                      (λ k hk _. above k hk)))
          ]
    ]

-- The heap order but for one slot, which stands in no order to its neighbours, while those keep theirs
-- across it.
abbrev Loose : ℕ → ReaderHeap → Type 0
Loose i h =
    ((k : ℕ) → 0 < k → k ≢ i → parent k ≢ i → less h k (parent k) ≡ false) × OrderedAcross i h

-- The slot that down_loop ends in is not above the one that it starts from.
down_loop-le : (fuel : ℕ) (h : ReaderHeap) (i : ℕ) → i ≤ (down_loop fuel h i).1
unfolding down_loop
down_loop-le zero h i = omega arith
down_loop-le (suc fuel) h i = elim (Bool-cases (ltb (2 * i + 1) (length h.items))) [
  | inr leaf ↦ rw leaf (omega arith)
  | inl inner ↦
      let (at, pos_kid, deeper, within) = older_kid-kid h i (ground arith) in
      ground (arith, inner, down_loop-le fuel (swap h i (older_kid h i)) (older_kid h i))
]

irrefl : (i : ℕ) → ltb i i ≡ false
irrefl i = ground arith

down_cases :
    (fuel : ℕ) (h : ReaderHeap) (i : ℕ)
    → length h.items ≤ i + fuel
    → i < length h.items
    → Loose i h
    → ((down_loop fuel h i ≡ (h, i)) × OrderedBut i h)
      ⊎ ((i < (down_loop fuel h i).1) × Ordered (down_loop fuel h i).0)
unfolding down_loop
down_cases zero h i enough there (above, across) = absurd (omega arith)
down_cases (suc fuel) h i enough there (above, across) =
    elim (Bool-cases (ltb (2 * i + 1) (length h.items))) [
      | inr leaf ↦ inl (
        rw leaf refl,
        λ k hk ne.
            ground (
              arith,
              leaf,
              above k hk ne,
              less-version_at h k (parent k),
              get_elem?-none h.items k,
            ),
      )
      | inl inner ↦
          let (at, pos_kid, deeper, within) = older_kid-kid h i (ground arith) in
          elim (Bool-cases (less h (older_kid h i) i)) [
            | inr stays ↦ inl (
              rw (inner, stays) refl,
              λ k hk ne. stays_at h i k (ground arith) stays hk (above k hk ne),
            )
            | inl moves ↦
                rw (inner, moves)
                  (inr (
                    omega (arith, down_loop-le fuel (swap h i (older_kid h i)) (older_kid h i)),
                    down_loop-Ordered fuel (swap h i (older_kid h i)) (older_kid h i)
                        (omega (arith, length-swap h i (older_kid h i)))
                        (swap-OrderedAbove h i (older_kid h i) at pos_kid within
                          (λ k hk below. older_kid-oldest h i k (ground arith) hk below) moves above
                          across)
                        (swap-Across h i (older_kid h i) at pos_kid within
                          (λ k hk below. older_kid-oldest h i k (ground arith) hk below) moves
                          above),
                  ))
          ]
    ]

sift-Ordered : (h : ReaderHeap) (i : ℕ) → Loose i h → Ordered (sift h i)
unfolding sift down up
sift-Ordered h i (above, across) = elim (Bool-cases (ltb i (length h.items))) [
  | inr gone ↦ rw gone (λ k hk.
      ground (arith, gone, above k hk, less-version_at h k (parent k), get_elem?-none h.items k))
  | inl there ↦
      elim (down_cases (length h.items) h i (omega arith) (ground arith) (above, across)) [
        | inl (same, but) ↦
            rw (there, same, irrefl i)
              (up_loop-Ordered i h i (omega arith) (ground arith) but across)
        | inr (moved, ordered) ↦
            rw (there, lt→ltb i (down_loop (length h.items) h i).1 moved) ordered
      ]
]

get_elem?-take_if :
    (xs : List ℕ) (m k : ℕ) → get_elem? (take m xs) k ≡ (if ltb k m then get_elem? xs k else none)
get_elem?-take_if xs zero k = ground arith
get_elem?-take_if [] (suc m) k = ground arith
get_elem?-take_if (x ∷ xs) (suc m) zero = ground arith
get_elem?-take_if (x ∷ xs) (suc m) (suc k) = ground (arith, get_elem?-take_if xs m k)

pop_last-Loose :
    (h : ReaderHeap) (i n : ℕ)
    → Ordered h
    → i ≤ n
    → length h.items ≡ suc n
    → Loose i (pop_last (swap h i n) n)
pop_last-Loose h i n ordered le size = (
  λ k hk ne off. ground (
    arith,
    ordered k hk,
    less-version_at h k (parent k),
    less-version_at (pop_last (swap h i n) n) k (parent k),
    version_at-swap h i n k (omega arith) (omega arith),
    version_at-swap h i n (parent k) (omega arith) (omega arith),
    get_elem?-take_if (swap h i n).items n k,
    get_elem?-take_if (swap h i n).items n (parent k),
    hk,
    ne,
    off,
    le,
  ),
  λ c hc hi below.
      let (a, e) = get_elem?-some h.items i (omega arith) in
      ground (
        arith,
        e,
        ordered c hc,
        ordered i hi,
        less-version_at h c (parent c),
        less-version_at h i (parent i),
        less-version_at (pop_last (swap h i n) n) c (parent i),
        version_at-swap h i n c (omega arith) (omega arith),
        version_at-swap h i n (parent i) (omega arith) (omega arith),
        get_elem?-take_if (swap h i n).items n c,
        get_elem?-take_if (swap h i n).items n (parent i),
        below,
        le,
      ),
)

set_index-Ordered : (h : ReaderHeap) (r : ℕ) (n : ℤ) → Ordered h → Ordered (set_index r n h)
unfolding set_index less
set_index-Ordered h r n ordered = ordered

remove_at-Ordered :
    (h g : ReaderHeap) (i reader : ℕ)
    → Ordered h
    → i < length h.items
    → remove_at h i
        (swap h i (length h.items - 1))
        (get_elem? (swap h i (length h.items - 1)).items (length h.items - 1))
      ≡ ok (reader, g)
    → Ordered g
unfolding remove_at
remove_at-Ordered h g i reader ordered there e =
    let n = length h.items - 1 in
    let swapped = swap h i n in
    elim (Option-cases (get_elem? swapped.items n)) [
      | inl f ↦ ground arith
      | inr (r, f) ↦
          subst (λ x. Ordered x.1) (ok-injective (sym (ap (remove_at h i swapped) f) ∙ e))
            (set_index-Ordered (sift (pop_last swapped n) i) r (negsuc 0) (
              sift-Ordered (pop_last swapped n) i
                (pop_last-Loose h i n ordered (omega arith) (omega arith))))
    ]

-- Removing the reader at a slot keeps the heap order.
pub remove-Ordered :
    (h g : ReaderHeap) (i reader : ℕ) → Ordered h → remove h (pos i) ≡ ok (reader, g) → Ordered g
unfolding remove
remove-Ordered h g i reader ordered e =
    remove_at-Ordered h g i reader ordered (ground arith) (ground arith)
