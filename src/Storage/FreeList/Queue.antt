-- ===== src/Storage/FreeList/Queue.antt =====
-- The free list as a queue of pages with the versions that freed them, while it lies in one node.
use sqldb.Base.{
  ℕ, suc, ◌+◌, ◌^◌, ◌<◌, ◌≡◌, ◌≢◌, refl, sym, subst, true, false, List, [], ◌∷◌, ◌++◌, length,
  length-append, ok, ◌⊎◌, inl, inr, Bool-cases, ◌==◌, arith,
}
use sqldb.Storage.FreeList.{
  FreeList, LNode, version_before, seq_to_idx, next_seq, free_list_cap, pop, pop_head, push_tail,
  append_item, set_item,
}

-- The slots of a node from an index on hold those items.
abbrev pub Slots : LNode → ℕ → List (ℕ × ℕ) → Type 0
Slots node idx [] = Unit
Slots node idx (item ∷ items) =
    (node.ptr idx ≡ item.0) × (node.node_version idx ≡ item.1) × Slots node (suc idx) items

-- The items of a list that lies in one node, from the head on.
pub record IsQueue (l : FreeList) (items : List (ℕ × ℕ)) : Type 0 where
  pub one_node : l.state.head_page ≡ l.state.tail_page
  pub counted : l.state.tail_seq ≡ l.state.head_seq + length items
  pub small : l.state.tail_seq < 2 ^ 64
  pub within : seq_to_idx l.state.head_seq + length items < free_list_cap
  pub slots : Slots (l.pages l.state.head_page) (seq_to_idx l.state.head_seq) items

-- What pop_head does to the items: it hands out the first one, where min_reader has passed the version that
-- freed it, and leaves the others; else, and where there is none, it hands out nothing and changes nothing.
abbrev pub Hands : FreeList → List (ℕ × ℕ) → Type 0
Hands l [] = pop_head l ≡ ok (0, l)
Hands l (item ∷ items) =
    ((version_before item.1 l.min_reader ≡ true)
      × (m : FreeList) × (pop_head l ≡ ok (item.0, m))
      × IsQueue m items)
    ⊎ ((version_before item.1 l.min_reader ≡ false) × (pop_head l ≡ ok (0, l)))

-- The slot behind one that is not the node's last.
next_idx :
    (seq : ℕ)
    → seq + 1 < 2 ^ 64
    → seq_to_idx seq + 1 < free_list_cap
    → (seq_to_idx (next_seq seq) ≡ suc (seq_to_idx seq))
      × ((seq_to_idx (next_seq seq) == 0) ≡ false)
unfolding seq_to_idx
next_idx seq small within =
    let next : seq_to_idx (next_seq seq) ≡ suc (seq_to_idx seq) = omega (arith, small, within) in
    (next, rw next (ground arith))

pub pop_head-IsQueue : (l : FreeList) (items : List (ℕ × ℕ)) → IsQueue l items → Hands l items
unfolding pop_head pop seq_to_idx
pop_head-IsQueue l [] q =
    let none_left : (l.state.head_seq == l.state.tail_seq) ≡ true = ground (arith, q.counted) in
    rw none_left refl
pop_head-IsQueue l ((p, v) ∷ items) q =
    let (ptr, version, slots) = q.slots in
    let some_left : (l.state.head_seq == l.state.tail_seq) ≡ false = ground (arith, q.counted) in
    let next : next_seq l.state.head_seq ≡ l.state.head_seq + 1 =
      omega (arith, q.counted, q.small) in
    let (idx, in_node) =
      next_idx l.state.head_seq (omega (arith, q.counted, q.small)) (omega (arith, q.within)) in
    elim (Bool-cases (version_before v l.min_reader)) [
      | inr fresh ↦ inr (fresh, rw (some_left, version, fresh) refl)
      | inl passed ↦ inl (
        passed,
        record l { state = record l.state { head_seq = next_seq l.state.head_seq } },
        rw (some_left, version, passed, in_node, ptr) refl,
        record {
          one_node = q.one_node;
          counted = omega (arith, q.counted, next);
          small = q.small;
          within = omega (arith, next, idx, q.within);
          slots = rw idx slots;
        },
      )
    ]

Slots-append :
    (node : LNode) (idx : ℕ) (items : List (ℕ × ℕ)) (p v : ℕ)
    → Slots node idx items
    → Slots (set_item node (idx + length items) p v) idx (items ++ (p, v) ∷ [])
unfolding set_item
Slots-append node idx [] p v slots = (ground arith, ground arith, tt)
Slots-append node idx (item ∷ items) p v (ptr, version, slots) = (
  ground (arith, ptr),
  ground (arith, version),
  subst (λ k. Slots (set_item node k p v) (suc idx) (items ++ (p, v) ∷ [])) (omega arith)
      (Slots-append node (suc idx) items p v slots),
)

tail_idx :
    (l : FreeList) (items : List (ℕ × ℕ))
    → IsQueue l items
    → seq_to_idx l.state.tail_seq ≡ seq_to_idx l.state.head_seq + length items
unfolding seq_to_idx
tail_idx l items q = omega (arith, q.counted, q.within)

append_item-IsQueue :
    (l : FreeList) (p : ℕ) (items : List (ℕ × ℕ))
    → IsQueue l items
    → seq_to_idx l.state.head_seq + length items + 1 < free_list_cap
    → l.state.tail_seq + 1 < 2 ^ 64
    → IsQueue (append_item p l) (items ++ (p, l.version) ∷ [])
unfolding append_item seq_to_idx
append_item-IsQueue l p items q room small =
    let longer : length (items ++ (p, l.version) ∷ []) ≡ length items + 1 =
      length-append items ((p, l.version) ∷ []) in
    let at = tail_idx l items q in
    let here : (l.state.head_page == l.state.tail_page) ≡ true = ground (arith, q.one_node) in
    record {
      one_node = q.one_node;
      counted = omega (arith, longer, q.counted, small);
      small = omega (arith, small);
      within = omega (arith, longer, room);
      slots =
          rw (here, at, sym q.one_node)
            (Slots-append (l.pages l.state.head_page) (seq_to_idx l.state.head_seq) items p
              l.version q.slots);
    }

-- On a free list whose items lie in one node with room for two more, push_tail of a page puts it behind
-- them with the running version; and pop_head on the list that it leaves hands out the first item, where
-- min_reader has passed the version that freed it, and leaves the others in their order, or else hands out
-- nothing and changes nothing.
pub push_tail-IsQueue :
    (l : FreeList) (p : ℕ) (items : List (ℕ × ℕ))
    → IsQueue l items
    → p ≢ 0
    → version_before l.version l.min_reader ≡ false
    → seq_to_idx l.state.head_seq + length items + 1 < free_list_cap
    → l.state.tail_seq + 1 < 2 ^ 64
    → (m : FreeList) × (push_tail p l ≡ ok m)
      × IsQueue m (items ++ (p, l.version) ∷ [])
      × Hands m (items ++ (p, l.version) ∷ [])
unfolding push_tail append_item
push_tail-IsQueue l p items q nonzero current room small =
    let queue = append_item-IsQueue l p items q room small in
    let some_page : (p == 0) ≡ false = ground (arith, nonzero) in
    let at : seq_to_idx l.state.tail_seq ≡ seq_to_idx l.state.head_seq + length items =
      tail_idx l items q in
    let (idx, in_node) = next_idx l.state.tail_seq small (omega (arith, at, room)) in
    (
      append_item p l,
      rw (some_page, current, in_node) refl,
      queue,
      pop_head-IsQueue (append_item p l) (items ++ (p, l.version) ∷ []) queue,
    )
