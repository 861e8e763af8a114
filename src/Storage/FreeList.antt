-- ===== src/Storage/FreeList.antt =====
-- include/storage/freelist.h and src/storage/freelist.cpp. The list's pages are a map from page numbers
-- to nodes, each read through its fields: `next`, and the pointer and the version at every slot. A page
-- that was another node or a tree's before holds whatever it held. append_page of the interface
-- hands out the number behind the last page, zeroed.
pub mod Reuse
pub mod Queue
use sqldb.Base.{
  ℕ, zero, suc, ◌+◌, ◌-◌, ◌*◌, ◌/◌, ◌%◌, ◌^◌, Bool, true, false, not, if◌then◌else◌, ltb, ◌==◌,
  Option, none, some, Result, ok, stop, asserted, ◌>>=◌, ◌>>◌, ensure,
}

abbrev pub page_size : ℕ
page_size = 4096

abbrev pub free_list_header : ℕ
free_list_header = 8

abbrev pub free_list_item_size : ℕ
free_list_item_size = 16

abbrev pub free_list_cap : ℕ
free_list_cap = (page_size - free_list_header) / free_list_item_size

-- The sign of the 64-bit difference.
unfoldable pub version_before : ℕ → ℕ → Bool
version_before a b = not (ltb ((a + (2 ^ 64 - b)) % 2 ^ 64) (2 ^ 63))

-- The fields that LNodeT reads and writes in a page.
pub record LNode : Type 0 where
  pub next : ℕ
  pub ptr : ℕ → ℕ
  pub node_version : ℕ → ℕ

abbrev pub update {ℓ} : {A : Type ℓ} → (ℕ → A) → ℕ → A → ℕ → A
update f k v n = if n == k then v else f n

unfoldable pub set_next : LNode → ℕ → LNode
set_next node p = record node { next = p }

-- set_ptr and set_version at one slot.
unfoldable pub set_item : LNode → ℕ → ℕ → ℕ → LNode
set_item node idx p v = record node {
  ptr = update node.ptr idx p;
  node_version = update node.node_version idx v;
}

abbrev pub zeroed : LNode
zeroed = record { next = 0; ptr = λ _. 0; node_version = λ _. 0 }

pub record FreeListState : Type 0 where
  pub head_page : ℕ
  pub head_seq : ℕ
  pub tail_page : ℕ
  pub tail_seq : ℕ

-- `end_page` is the number that append_page hands out next.
pub record FreeList : Type 0 where
  pub state : FreeListState
  pub version : ℕ
  pub min_reader : ℕ
  pub pages : ℕ → LNode
  pub end_page : ℕ

unfoldable pub seq_to_idx : ℕ → ℕ
seq_to_idx seq = seq % free_list_cap

-- Popped: a page number, or 0, and the drained head node, or 0.
pub record Popped : Type 0 where
  pub ptr : ℕ
  pub drained_head : ℕ

abbrev pub nothing : Popped
nothing = record { ptr = 0; drained_head = 0 }

abbrev pub next_seq : ℕ → ℕ
next_seq seq = (seq + 1) % 2 ^ 64

unfoldable pub pop : FreeList → Result (Popped × FreeList)
pop l =
    let s = l.state in
    let node = l.pages s.head_page in
    let idx = seq_to_idx s.head_seq in
    let seq = next_seq s.head_seq in
    let stepped = record l { state = record s { head_seq = seq } } in
    let moved = record l { state = record s { head_seq = seq; head_page = node.next } } in
    let drained = (do
      ensure (not (node.next == 0)) asserted
      ok (record { ptr = node.ptr idx; drained_head = s.head_page }, moved)) in
    if s.head_seq == s.tail_seq
    then ok (nothing, l)
    else if not (version_before (node.node_version idx) l.min_reader)
    then ok (nothing, l)
    else if seq_to_idx seq == 0
    then drained
    else ok (record { ptr = node.ptr idx; drained_head = 0 }, stepped)

unfoldable pub append_item : ℕ → FreeList → FreeList
append_item p l =
    let s = l.state in
    record l {
      pages =
          update l.pages s.tail_page
            (set_item (l.pages s.tail_page) (seq_to_idx s.tail_seq) p l.version);
      state = record s { tail_seq = next_seq s.tail_seq };
    }

abbrev pub append_page : FreeList → ℕ × FreeList
append_page l =
    (l.end_page, record l { pages = update l.pages l.end_page zeroed; end_page = l.end_page + 1 })

-- The page for a new tail node: the popped one, or one appended to the file.
abbrev pub node_page : Popped → FreeList → ℕ × FreeList
node_page popped l = if popped.ptr == 0 then append_page l else (popped.ptr, l)

unfoldable pub link : ℕ → FreeList → FreeList
link next l =
    let s = l.state in
    record l {
      pages = update l.pages s.tail_page (set_next (l.pages s.tail_page) next);
      state = record s { tail_page = next };
    }

abbrev pub keep_drained : Popped → FreeList → FreeList
keep_drained popped l = if popped.drained_head == 0 then l else append_item popped.drained_head l

-- push_tail, behind its append_item, where the tail node is full.
unfoldable pub grow : FreeList → Result FreeList
grow l = do
  (popped, m) ← pop l
  let (next, n) = node_page popped m
  ok (keep_drained popped (link next n))

unfoldable pub push_tail : ℕ → FreeList → Result FreeList
push_tail p l = do
  ensure (not (p == 0)) asserted
  ensure (not (version_before l.version l.min_reader)) asserted
  let m = append_item p l
  if seq_to_idx m.state.tail_seq == 0 then grow m else ok m

unfoldable pub pop_head : FreeList → Result (ℕ × FreeList)
pop_head l = do
  (popped, m) ← pop l
  n ← if popped.drained_head == 0 then ok m else push_tail popped.drained_head m
  ok (popped.ptr, n)

unfoldable pub revert : FreeListState → FreeList → FreeList
revert s l = record l { state = s }
