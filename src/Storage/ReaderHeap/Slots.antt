-- ===== src/Storage/ReaderHeap/Slots.antt =====
-- Every reader in the heap knows its slot.
use sqldb.Base.{
  ℕ, zero, suc, ◌+◌, ◌-◌, ◌*◌, ◌/◌, ◌<◌, ◌≡◌, ◌≢◌, not, List, [], ◌∷◌, ◌++◌, some, length,
  get_elem?, set, ltb, pos, negsuc, arith, ok, subst, sym, ap, ◌∙◌, ok-injective, ◌==◌, take, ◌⊎◌,
  Option-cases, inl, inr, length-set, if-elim, get_elem?-set_self, get_elem?-lt, get_elem?-set_ne,
}
use sqldb.Storage.ReaderHeap.{
  ReaderHeap, set_index, less, swap, swap_readers, down_loop, down, older_kid, up_loop, up, push,
  sift, remove_at, remove,
}

-- The reader in slot `i` has heap_index `i`.
abbrev pub Indexed : ReaderHeap → Type 0
Indexed h = (i r : ℕ) → get_elem? h.items i ≡ some r → h.heap_index r ≡ pos i

swap_readers-Indexed :
    (h : ReaderHeap) (i j a b : ℕ)
    → Indexed h
    → get_elem? h.items i ≡ some a
    → get_elem? h.items j ≡ some b
    → Indexed (swap_readers h i j (some a) (some b))
unfolding set_index
swap_readers-Indexed h i j a b inv at_i at_j k r e = ground (
  arith,
  inv i a at_i,
  inv j b at_j,
  inv k r,
  get_elem?-lt h.items i a at_i,
  get_elem?-lt h.items j b at_j,
  get_elem?-set_self h.items i b,
  get_elem?-set_self (set h.items i b) j a,
  length-set h.items i b,
  get_elem?-set_ne h.items {i = i} {j = k} b,
  get_elem?-set_ne (set h.items i b) {i = j} {j = k} a,
)

swap-Indexed : (h : ReaderHeap) (i j : ℕ) → Indexed h → Indexed (swap h i j)
unfolding swap
swap-Indexed h i j inv = elim (Option-cases (get_elem? h.items i)) [
  | inl e ↦ rw (swap, e) inv
  | inr (a, e) ↦ elim (Option-cases (get_elem? h.items j)) [
    | inl f ↦ rw (swap, e, f) inv
    | inr (b, f) ↦ rw (swap, e, f) (swap_readers-Indexed h i j a b inv e f)
  ]
]

-- What every swap keeps, the sifting loops keep.
module _ (P : ReaderHeap → Type 0)
    (swap_keeps : (h : ReaderHeap) (i j : ℕ) → P h → P (swap h i j)) where
  up_loop_keeps : (fuel : ℕ) (h : ReaderHeap) (j : ℕ) → P h → P (up_loop fuel h j)
  unfolding up_loop
  up_loop_keeps zero h j p = p
  up_loop_keeps (suc fuel) h j p = if-elim P (j == 0) p (
      if-elim P (not (less h j ((j - 1) / 2))) p (
        up_loop_keeps fuel (swap h ((j - 1) / 2) j) ((j - 1) / 2) (swap_keeps h ((j - 1) / 2) j p)))

  down_loop_keeps : (fuel : ℕ) (h : ReaderHeap) (i : ℕ) → P h → P (down_loop fuel h i).0
  unfolding down_loop
  down_loop_keeps zero h i p = p
  down_loop_keeps (suc fuel) h i p =
      if-elim {X = ReaderHeap × ℕ} (λ r. P r.0) (not (ltb (2 * i + 1) (length h.items))) p
        (if-elim {X = ReaderHeap × ℕ} (λ r. P r.0) (not (less h (older_kid h i) i)) p
          (down_loop_keeps fuel (swap h i (older_kid h i)) (older_kid h i)
            (swap_keeps h i (older_kid h i) p)))

  sift_keeps : (h : ReaderHeap) (i : ℕ) → P h → P (sift h i)
  unfolding sift down up
  sift_keeps h i p =
      if-elim P (ltb i (length h.items))
        (if-elim P (ltb i (down_loop (length h.items) h i).1)
          (down_loop_keeps (length h.items) h i p)
          (up_loop_keeps i _ i (down_loop_keeps (length h.items) h i p)))
        p

get_elem?-snoc :
    (xs : List ℕ) (x k r : ℕ)
    → get_elem? (xs ++ x ∷ []) k ≡ some r
    → (get_elem? xs k ≡ some r) ⊎ ((k ≡ length xs) × (r ≡ x))
get_elem?-snoc [] x zero r e = ground arith
get_elem?-snoc [] x (suc k) r e = ground arith
get_elem?-snoc (y ∷ xs) x zero r e = ground arith
get_elem?-snoc (y ∷ xs) x (suc k) r e = ground (arith, get_elem?-snoc xs x k r e)

get_elem?-take :
    (xs : List ℕ) (m k r : ℕ)
    → get_elem? (take m xs) k ≡ some r
    → (get_elem? xs k ≡ some r) × (k < m)
get_elem?-take xs zero k r e = ground arith
get_elem?-take [] (suc m) k r e = ground arith
get_elem?-take (x ∷ xs) (suc m) zero r e = ground arith
get_elem?-take (x ∷ xs) (suc m) (suc k) r e = ground (arith, get_elem?-take xs m k r e)

-- Pushing a reader that is not in the heap keeps every reader's slot right.
pub push-Indexed :
    (h : ReaderHeap) (reader : ℕ)
    → Indexed h
    → ((i : ℕ) → get_elem? h.items i ≢ some reader)
    → Indexed (push h reader)
unfolding push up set_index
push-Indexed h reader inv new =
    up_loop_keeps Indexed swap-Indexed (length h.items) _ (length h.items)
      λ k r e. ground (arith, get_elem?-snoc h.items reader k r e, inv k r, new k)

-- The reader is in no slot.
abbrev pub Outside : ℕ → ReaderHeap → Type 0
Outside reader h = (i : ℕ) → get_elem? h.items i ≢ some reader

swap_readers-Outside :
    (h : ReaderHeap) (i j a b reader : ℕ)
    → Outside reader h
    → get_elem? h.items i ≡ some a
    → get_elem? h.items j ≡ some b
    → Outside reader (swap_readers h i j (some a) (some b))
unfolding set_index
swap_readers-Outside h i j a b reader out at_i at_j k e = ground (
  arith,
  out i,
  out j,
  out k,
  get_elem?-lt h.items i a at_i,
  get_elem?-lt h.items j b at_j,
  get_elem?-set_self h.items i b,
  get_elem?-set_self (set h.items i b) j a,
  length-set h.items i b,
  get_elem?-set_ne h.items {i = i} {j = k} b,
  get_elem?-set_ne (set h.items i b) {i = j} {j = k} a,
)

swap-Outside :
    (reader : ℕ) (h : ReaderHeap) (i j : ℕ) → Outside reader h → Outside reader (swap h i j)
unfolding swap
swap-Outside reader h i j out = elim (Option-cases (get_elem? h.items i)) [
  | inl e ↦ rw (swap, e) out
  | inr (a, e) ↦ elim (Option-cases (get_elem? h.items j)) [
    | inl f ↦ rw (swap, e, f) out
    | inr (b, f) ↦ rw (swap, e, f) (swap_readers-Outside h i j a b reader out e f)
  ]
]

-- What remove leaves: the reader is gone, and each other one knows its slot.
abbrev pub Removed : ℕ × ReaderHeap → Type 0
Removed r = Indexed r.1 × Outside r.0 r.1 × (r.1.heap_index r.0 ≡ negsuc 0)

abbrev pub pop_last : ReaderHeap → ℕ → ReaderHeap
pop_last h n = record h { items = take n h.items }

pop_last-Indexed : (h : ReaderHeap) (n : ℕ) → Indexed h → Indexed (pop_last h n)
pop_last-Indexed h n inv k r e = inv k r (get_elem?-take h.items n k r e).0

pop_last-Outside :
    (h : ReaderHeap) (n reader : ℕ)
    → Indexed h
    → get_elem? h.items n ≡ some reader
    → Outside reader (pop_last h n)
pop_last-Outside h n reader inv at k e =
    ground (arith, get_elem?-take h.items n k reader e, inv k reader, inv n reader at)

set_index-Removed :
    (h : ReaderHeap) (reader : ℕ)
    → Indexed h
    → Outside reader h
    → Removed (reader, set_index reader (negsuc 0) h)
unfolding set_index
set_index-Removed h reader inv out = (λ k r e. ground (arith, inv k r e, out k), out, ground arith)

remove_at-Removed :
    (h g swapped : ReaderHeap) (i reader : ℕ)
    → Indexed swapped
    → remove_at h i swapped (get_elem? swapped.items (length h.items - 1)) ≡ ok (reader, g)
    → Removed (reader, g)
unfolding remove_at
remove_at-Removed h g swapped i reader inv e =
    elim (Option-cases (get_elem? swapped.items (length h.items - 1))) [
      | inl f ↦ ground arith
      | inr (r, f) ↦
          let n = length h.items - 1 in
          subst Removed (ok-injective (sym (ap (remove_at h i swapped) f) ∙ e)) (
            set_index-Removed (sift (pop_last swapped n) i) r
              (sift_keeps Indexed swap-Indexed (pop_last swapped n) i
                (pop_last-Indexed swapped n inv))
              (sift_keeps (Outside r) (swap-Outside r) (pop_last swapped n) i
                (pop_last-Outside swapped n r inv f)))
    ]

-- Removing the reader at a slot of the heap returns it with heap_index -1, leaves it in no slot, and
-- keeps every other reader's slot right.
pub remove-Removed :
    (h g : ReaderHeap) (i reader : ℕ)
    → Indexed h
    → remove h (pos i) ≡ ok (reader, g)
    → Removed (reader, g)
unfolding remove
remove-Removed h g i reader inv e =
    remove_at-Removed h g (swap h i (length h.items - 1)) i reader
      (swap-Indexed h i (length h.items - 1) inv) (ground arith)
