-- ===== src/Storage/ReaderHeap/Order.antt =====
-- The heap order: no reader is older than the one in its parent's slot.
use sqldb.Base.{
  ℕ, zero, suc, ◌-◌, ◌/◌, ◌<◌, ◌≤◌, ◌≡◌, ◌≢◌, refl, Bool, true, false, List, [], ◌∷◌, ◌++◌, Option,
  none, some, length, get_elem?, set, ltb, if◌then◌else◌, arith, ◌==◌, Option-cases, Bool-cases,
  inl, inr, length-append, length-set, get_elem?-set_self, get_elem?-lt, get_elem?-some,
  get_elem?-set_ne,
}
use sqldb.Storage.ReaderHeap.{ReaderHeap, set_index, less, swap, up_loop, up, push, min_reader}

-- The version in a slot.
abbrev pub version_of : (ℕ → ℕ) → Option ℕ → Option ℕ
version_of version none = none
version_of version (some r) = some (version r)

abbrev pub version_at : ReaderHeap → ℕ → Option ℕ
version_at h i = version_of h.version (get_elem? h.items i)

abbrev before : Option ℕ → Option ℕ → Bool
before (some a) (some b) = ltb a b
before _ _ = false

pub less-version_at :
    (h : ReaderHeap) (i j : ℕ) → less h i j ≡ before (version_at h i) (version_at h j)
unfolding less
less-version_at h i j = ground arith

-- A swap of two slots exchanges their versions.
pub version_at-swap :
    (h : ReaderHeap) (i j k : ℕ)
    → i < length h.items
    → j < length h.items
    → version_at (swap h i j) k
      ≡ (if k == i then version_at h j else if k == j then version_at h i else version_at h k)
unfolding swap set_index
version_at-swap h i j k hi hj =
    let (a, e) = get_elem?-some h.items i hi in
    let (b, f) = get_elem?-some h.items j hj in
    ground (
      arith,
      e,
      f,
      get_elem?-set_self h.items i b hi,
      get_elem?-set_self (set h.items i b) j a,
      length-set h.items i b,
      get_elem?-set_ne h.items {i = i} {j = k} b,
      get_elem?-set_ne (set h.items i b) {i = j} {j = k} a,
    )

-- The slot above.
abbrev pub parent : ℕ → ℕ
parent i = (i - 1) / 2

-- No reader is older than the one above it, but for the one in slot `j`.
abbrev pub OrderedBut : ℕ → ReaderHeap → Type 0
OrderedBut j h = (i : ℕ) → 0 < i → i ≢ j → less h i (parent i) ≡ false

-- Nor than the one above the slot `j`, for those right below that slot.
abbrev pub OrderedAcross : ℕ → ReaderHeap → Type 0
OrderedAcross j h = (c : ℕ) → 0 < c → 0 < j → parent c ≡ j → less h c (parent j) ≡ false

before-lt : (a b : Option ℕ) → before a b ≡ true → before b a ≡ false
before-lt a b h = ground arith

swap-OrderedBut :
    (h : ReaderHeap) (j : ℕ)
    → 0 < j
    → j < length h.items
    → OrderedBut j h
    → OrderedAcross j h
    → less h j (parent j) ≡ true
    → OrderedBut (parent j) (swap h (parent j) j)
swap-OrderedBut h j at hj but across lt i hi ne =
    let x = version_at-swap h (parent j) j i (omega arith) hj in
    let y = version_at-swap h (parent j) j (parent i) (omega arith) hj in
    ground (
      arith,
      x,
      y,
      less-version_at (swap h (parent j) j) i (parent i),
      less-version_at h j (parent j),
      less-version_at h i (parent i),
      less-version_at h i (parent j),
      but i hi,
      across i hi at,
      lt,
    )

swap-OrderedAcross :
    (h : ReaderHeap) (j : ℕ)
    → 0 < j
    → j < length h.items
    → OrderedBut j h
    → OrderedAcross (parent j) (swap h (parent j) j)
swap-OrderedAcross h j at hj but c hc above below =
    let (a, e) = get_elem?-some h.items j hj in
    let (b, f) = get_elem?-some h.items (parent j) (omega arith) in
    let x = version_at-swap h (parent j) j c (omega arith) hj in
    let y = version_at-swap h (parent j) j (parent (parent j)) (omega arith) hj in
    ground (
      arith,
      x,
      y,
      less-version_at (swap h (parent j) j) c (parent (parent j)),
      less-version_at h c (parent c),
      less-version_at h (parent j) (parent (parent j)),
      but c hc,
      but (parent j) above (omega arith),
      below,
      e,
      f,
      hc,
    )

pub length-swap : (h : ReaderHeap) (i j : ℕ) → length (swap h i j).items ≡ length h.items
unfolding swap set_index
length-swap h i j = elim (Option-cases (get_elem? h.items i)) [
  | inl e ↦ ground arith
  | inr (a, e) ↦ elim (Option-cases (get_elem? h.items j)) [
    | inl f ↦ ground arith
    | inr (b, f) ↦ ground (arith, length-set h.items i b, length-set (set h.items i b) j a)
  ]
]

-- No reader in the heap is older than the one above it.
abbrev pub Ordered : ReaderHeap → Type 0
Ordered h = (i : ℕ) → 0 < i → less h i (parent i) ≡ false

pub up_loop-Ordered :
    (fuel : ℕ) (h : ReaderHeap) (j : ℕ)
    → j ≤ fuel
    → j < length h.items
    → OrderedBut j h
    → OrderedAcross j h
    → Ordered (up_loop fuel h j)
unfolding up_loop
up_loop-Ordered zero h j le hj but across = λ i hi. but i hi (omega arith)
up_loop-Ordered (suc fuel) h zero le hj but across = λ i hi. but i hi (omega arith)
up_loop-Ordered (suc fuel) h (suc j) le hj but across =
    elim (Bool-cases (less h (suc j) (parent (suc j)))) [
      | inr stays ↦ rw stays (λ i hi. ground (arith, but i hi, stays))
      | inl moves ↦
          let inner : (suc j == 0) ≡ false = ground arith in
          rw (inner, moves)
            (up_loop-Ordered fuel (swap h (parent (suc j)) (suc j)) (parent (suc j)) (omega arith)
              (omega (arith, length-swap h (parent (suc j)) (suc j)))
              (swap-OrderedBut h (suc j) (omega arith) hj but across moves)
              (swap-OrderedAcross h (suc j) (omega arith) hj but))
    ]

get_elem?-append_last :
    (xs : List ℕ) (x k : ℕ)
    → get_elem? (xs ++ x ∷ []) k ≡ (if k == length xs then some x else get_elem? xs k)
get_elem?-append_last [] x zero = ground arith
get_elem?-append_last [] x (suc k) = ground arith
get_elem?-append_last (y ∷ xs) x zero = ground arith
get_elem?-append_last (y ∷ xs) x (suc k) = ground (arith, get_elem?-append_last xs x k)

pub get_elem?-none : (xs : List ℕ) (i : ℕ) → length xs ≤ i → get_elem? xs i ≡ none
get_elem?-none [] i h = refl
get_elem?-none (x ∷ xs) zero h = absurd (omega arith)
get_elem?-none (x ∷ xs) (suc i) h = get_elem?-none xs i (omega arith)

-- push keeps the heap order.
pub push-Ordered : (h : ReaderHeap) (reader : ℕ) → Ordered h → Ordered (push h reader)
unfolding push up set_index less
push-Ordered h reader ordered =
    up_loop-Ordered (length h.items) _ (length h.items) (omega arith)
      (omega (arith, length-append h.items (reader ∷ [])))
      (λ i hi ne. ground (
        arith,
        ordered i hi,
        get_elem?-append_last h.items reader i,
        get_elem?-append_last h.items reader (parent i),
        get_elem?-none h.items i,
        ne,
      ))
      (λ c hc at below.
        ground (arith, get_elem?-append_last h.items reader c, get_elem?-none h.items c, hc, below))

root_oldest :
    (h : ReaderHeap) (m : ℕ)
    → Ordered h
    → get_elem? h.items 0 ≡ some m
    → (fuel i r : ℕ) → i ≤ fuel
    → get_elem? h.items i ≡ some r
    → h.version m ≤ h.version r
unfolding less
root_oldest h m ordered at fuel zero r le e =
    let same : m ≡ r = ground arith in rw same (omega arith)
root_oldest h m ordered at zero (suc i) r le e = absurd (omega arith)
root_oldest h m ordered at (suc fuel) (suc i) r le e =
    let within = get_elem?-lt h.items (suc i) r e in
    let (p, f) = get_elem?-some h.items (parent (suc i)) (omega arith) in
    ground (
      arith,
      e,
      f,
      ordered (suc i) (omega arith),
      root_oldest h m ordered at fuel (parent (suc i)) p (omega arith) f,
    )

-- Where the heap order holds and there is a reader in the heap, min returns one, and no reader in the
-- heap has an older version.
pub min_reader-Ordered :
    (h : ReaderHeap) (i r : ℕ)
    → Ordered h
    → get_elem? h.items i ≡ some r
    → (m : ℕ) × (min_reader h ≡ some m) × (h.version m ≤ h.version r)
unfolding min_reader
min_reader-Ordered h i r ordered e =
    let within = get_elem?-lt h.items i r e in
    let (m, at) = get_elem?-some h.items 0 (omega arith) in
    (m, at, root_oldest h m ordered at i i r (omega arith) e)
