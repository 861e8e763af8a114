-- ===== src/Storage/ReaderHeap.antt =====
-- include/storage/reader_heap.h and src/storage/reader_heap.cpp. A reader is known by a number, for the
-- pointer of the source; the fields of a KVReader that the heap uses are maps from readers.
pub mod Slots
pub mod Order
pub mod Removal
use sqldb.Base.{
  ℕ, zero, suc, ◌+◌, ◌-◌, ◌*◌, ◌/◌, Bool, true, false, not, ◌&&◌, List, [], ◌∷◌, ◌++◌, Option, none,
  some, length, get_elem?, set, take, ltb, if◌then◌else◌, ℤ, pos, negsuc, Result, ok, stop,
  asserted, ◌>>=◌, ◌>>◌, ensure, ◌==◌,
}

pub record ReaderHeap : Type 0 where
  pub items : List ℕ
  pub version : ℕ → ℕ
  pub heap_index : ℕ → ℤ

unfoldable pub set_index : ℕ → ℤ → ReaderHeap → ReaderHeap
set_index r i h = record h { heap_index = λ x. if x == r then i else h.heap_index x }

abbrev pub older : (ℕ → ℕ) → Option ℕ → Option ℕ → Bool
older version (some a) (some b) = ltb (version a) (version b)
older version _ _ = false

unfoldable pub less : ReaderHeap → ℕ → ℕ → Bool
less h i j = older h.version (get_elem? h.items i) (get_elem? h.items j)

-- swap, of slots that hold the readers `a` and `b`.
abbrev pub swap_readers : ReaderHeap → ℕ → ℕ → Option ℕ → Option ℕ → ReaderHeap
swap_readers h i j (some a) (some b) =
    set_index a (pos j) (set_index b (pos i) (record h { items = set (set h.items i b) j a }))
swap_readers h i j _ _ = h

unfoldable pub swap : ReaderHeap → ℕ → ℕ → ReaderHeap
swap h i j = swap_readers h i j (get_elem? h.items i) (get_elem? h.items j)

-- The loop of up. Each round halves `j`, so `j` rounds are enough.
unfoldable pub up_loop : ℕ → ReaderHeap → ℕ → ReaderHeap
up_loop zero h j = h
up_loop (suc fuel) h j =
    let parent = (j - 1) / 2 in
    let rest = up_loop fuel (swap h parent j) parent in
    if j == 0 then h else if not (less h j parent) then h else rest

unfoldable pub up : ReaderHeap → ℕ → ReaderHeap
up h j = up_loop j h j

-- The older of the two children of a slot.
unfoldable pub older_kid : ReaderHeap → ℕ → ℕ
older_kid h i =
    let kid = 2 * i + 1 in
    if ltb (kid + 1) (length h.items) && less h (kid + 1) kid then kid + 1 else kid

-- The loop of down, with the slot that the item ends in: it goes down a level each round, so as many
-- rounds as there are slots are enough.
unfoldable pub down_loop : ℕ → ReaderHeap → ℕ → ReaderHeap × ℕ
down_loop zero h i = (h, i)
down_loop (suc fuel) h i =
    let kid = older_kid h i in
    let rest = down_loop fuel (swap h i kid) kid in
    if not (ltb (2 * i + 1) (length h.items))
    then (h, i)
    else if not (less h kid i)
    then (h, i)
    else rest

unfoldable pub down : ReaderHeap → ℕ → ReaderHeap × Bool
down h i0 = let r = down_loop (length h.items) h i0 in (r.0, ltb i0 r.1)

unfoldable pub push : ReaderHeap → ℕ → ReaderHeap
push h reader =
    let n = length h.items in
    let indexed = set_index reader (pos n) h in
    up (record indexed { items = h.items ++ reader ∷ [] }) n

-- remove, behind the swap: the last item leaves, and the item in its slot is sifted.
unfoldable pub sift : ReaderHeap → ℕ → ReaderHeap
sift h i = let d = down h i in if ltb i (length h.items) then (if d.1 then d.0 else up d.0 i) else h

unfoldable pub remove_at : ReaderHeap → ℕ → ReaderHeap → Option ℕ → Result (ℕ × ReaderHeap)
remove_at h i swapped none = stop asserted
remove_at h i swapped (some reader) =
    let popped = record swapped { items = take (length h.items - 1) swapped.items } in
    ok (reader, set_index reader (negsuc 0) (sift popped i))

unfoldable pub remove : ReaderHeap → ℤ → Result (ℕ × ReaderHeap)
remove h (negsuc n) = stop asserted
remove h (pos i) = do
  ensure (ltb i (length h.items)) asserted
  let swapped = swap h i (length h.items - 1)
  remove_at h i swapped (get_elem? swapped.items (length h.items - 1))

-- min, or none for nullptr.
unfoldable pub min_reader : ReaderHeap → Option ℕ
min_reader h = get_elem? h.items 0
