-- ===== src/Storage/FreeList/Reuse.antt =====
-- Which pages the free list hands out, and when.
use sqldb.Base.{
  ℕ, subst, sym, ◌∙◌, ◌+◌, ◌^◌, ◌<◌, ◌≤◌, ◌≡◌, ◌≢◌, refl, true, false, ltb, ok, arith, Result-cases,
  inl, inr,
}
use sqldb.Storage.FreeList.{
  version_before, FreeList, seq_to_idx, next_seq, Popped, nothing, pop, append_item, push_tail,
  pop_head, set_item,
}

-- The wraparound comparison is the order of the numbers while they are less than 2^63 apart.
pub version_before_close :
    (a b : ℕ)
    → a < 2 ^ 64
    → b < 2 ^ 64
    → a < b + 2 ^ 63
    → b ≤ a + 2 ^ 63
    → version_before a b ≡ ltb a b
unfolding version_before
version_before_close a b h k close near = ground arith

-- The version that freed the item at the head.
abbrev pub head_version : FreeList → ℕ
head_version l = (l.pages l.state.head_page).node_version (seq_to_idx l.state.head_seq)

abbrev pub head_ptr : FreeList → ℕ
head_ptr l = (l.pages l.state.head_page).ptr (seq_to_idx l.state.head_seq)

abbrev pub IsHead : FreeList → ℕ → Type 0
IsHead l p =
    (p ≡ head_ptr l)
    × (version_before (head_version l) l.min_reader ≡ true)
    × (l.state.head_seq ≢ l.state.tail_seq)

pop-IsHead : (l m : FreeList) (q : Popped) → pop l ≡ ok (q, m) → q.ptr ≢ 0 → IsHead l q.ptr
unfolding pop
pop-IsHead l m q h nonzero = ground arith

-- A page that pop_head hands out was the item at the head, freed before min_reader.
pub pop_head-IsHead : (l m : FreeList) (p : ℕ) → pop_head l ≡ ok (p, m) → p ≢ 0 → IsHead l p
unfolding pop_head
pop_head-IsHead l m p h nonzero = elim (Result-cases (pop l)) [
  | inl ((q, n), e) ↦
      let same : q.ptr ≡ p = ground arith in
      subst (IsHead l) same (pop-IsHead l n q e (λ z. nonzero (sym same ∙ z)))
  | inr (why, e) ↦ ground arith
]

-- An item that min_reader has not passed stays.
pop_fresh :
    (l : FreeList) → version_before (head_version l) l.min_reader ≡ false → pop l ≡ ok (nothing, l)
unfolding pop
pop_fresh l h = ground arith

-- While min_reader has not passed the version of the head's item, pop_head hands out nothing and
-- changes nothing.
pub pop_head_fresh :
    (l : FreeList) → version_before (head_version l) l.min_reader ≡ false → pop_head l ≡ ok (0, l)
unfolding pop_head
pop_head_fresh l h = rw (pop_fresh l h) refl

-- The item that is appended to an empty list is its head, freed at the running version.
append_item-empty :
    (l : FreeList) (p : ℕ)
    → l.state.head_seq ≡ l.state.tail_seq
    → l.state.head_page ≡ l.state.tail_page
    → head_version (append_item p l) ≡ l.version
unfolding append_item set_item
append_item-empty l p h k = rw (h, k) (ground arith)

-- Where the list is empty and its tail node stays below its capacity, push_tail succeeds, and pop_head
-- does not hand the page out again in the same version.
pub pop_head-push_tail :
    (l : FreeList) (p : ℕ)
    → p ≢ 0
    → version_before l.version l.min_reader ≡ false
    → l.state.head_seq ≡ l.state.tail_seq
    → l.state.head_page ≡ l.state.tail_page
    → seq_to_idx (next_seq l.state.tail_seq) ≢ 0
    → (m : FreeList) × (push_tail p l ≡ ok m) × (pop_head m ≡ ok (0, m))
unfolding push_tail append_item
pop_head-push_tail l p nonzero current h k room = (
  append_item p l,
  ground arith,
  pop_head_fresh (append_item p l) (rw (append_item-empty l p h k) current),
)
