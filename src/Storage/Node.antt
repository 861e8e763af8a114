-- ===== src/Storage/Node.antt =====
-- The nodes of the B+tree: BNode of include/storage/btree.h, and the functions on nodes of
-- src/storage/btree.cpp. A node is its type, the number of keys in its header, and the entries that
-- were appended to it, each with the child pointer, the key and the value that the accessors read.
-- The size of the buffer that a node is built in is an argument of the functions that build it.
pub mod Build
pub mod Lookup
pub mod Split
pub mod Buffer
pub mod Pieces
pub mod Layout
pub mod Stored
pub mod Parts
pub mod Write
pub mod Append
pub mod Encode
mod Tests
use sqldb.Base.{
  ℕ, zero, suc, ◌+◌, ◌-◌, ◌*◌, ◌/◌, ◌%◌, ◌^◌, Bool, true, false, not, ◌&&◌, List, [], ◌∷◌, ◌++◌,
  Option, none, some, length, get_elem?, take, drop, ltb, leb, ◌==◌, if◌then◌else◌, Ordering, Bytes,
  lex, bytes_eq, Result, ok, stop, asserted, ◌>>=◌, ◌>>◌, ensure,
}

abbrev pub bnode_node : ℕ
bnode_node = 1

abbrev pub bnode_leaf : ℕ
bnode_leaf = 2

abbrev pub btree_page_size : ℕ
btree_page_size = 4096

abbrev pub btree_max_key_size : ℕ
btree_max_key_size = 1000

abbrev pub btree_max_val_size : ℕ
btree_max_val_size = 1000

pub record Entry : Type 0 where
  pub ptr : ℕ
  pub key : Bytes
  pub val : Bytes

pub record BNode : Type 0 where
  pub btype : ℕ
  pub nkeys : ℕ
  pub entries : List Entry

-- A buffer with its header set and no entry appended yet.
abbrev pub set_header : ℕ → ℕ → BNode
set_header btype nkeys = record { btype = btype; nkeys = nkeys % 2 ^ 16; entries = [] }

-- The bytes of an entry among the KV data, and the end of the data, which is what the last
-- offset written holds.
abbrev pub kv_size : Entry → ℕ
kv_size e = 4 + length e.key + length e.val

unfoldable pub offset : List Entry → ℕ
offset [] = 0
offset (e ∷ es) = kv_size e + offset es

-- kv_base_offset, and kv_pos behind the entries there are.
abbrev pub kv_base_offset : ℕ → ℕ
kv_base_offset nkeys = 4 + nkeys * 8 + nkeys * 2

abbrev pub kv_pos : BNode → ℕ
kv_pos n = kv_base_offset n.nkeys + offset n.entries % 2 ^ 16

abbrev pub nbytes : BNode → ℕ
nbytes n = kv_pos n % 2 ^ 16

-- In a buffer of `size` bytes. The index of the source is the number of entries appended before.
unfoldable pub node_append_kv : ℕ → Entry → BNode → Result BNode
node_append_kv size e n = do
  ensure (leb (length e.key) btree_max_key_size) asserted
  ensure (leb (length e.val) btree_max_val_size) asserted
  ensure (leb (kv_pos n + kv_size e) size) asserted
  ok (record n { entries = n.entries ++ e ∷ [] })

unfoldable pub append_all : ℕ → List Entry → BNode → Result BNode
append_all size [] n = ok n
append_all size (e ∷ es) n = node_append_kv size e n >>= append_all size es

-- `n` entries of `old` from `src` on, behind those of `new_node`.
unfoldable pub node_append_range : ℕ → BNode → ℕ → ℕ → BNode → Result BNode
node_append_range size old src n new_node = append_all size (take n (drop src old.entries)) new_node

unfoldable pub leaf_insert : ℕ → BNode → ℕ → Bytes → Bytes → Result BNode
leaf_insert size old idx key val = do
  a ← node_append_range size old 0 idx (set_header bnode_leaf (old.nkeys + 1))
  b ← node_append_kv size (record { ptr = 0; key = key; val = val }) a
  node_append_range size old idx (old.nkeys - idx) b

unfoldable pub leaf_update : ℕ → BNode → ℕ → Bytes → Bytes → Result BNode
leaf_update size old idx key val = do
  a ← node_append_range size old 0 idx (set_header bnode_leaf old.nkeys)
  b ← node_append_kv size (record { ptr = 0; key = key; val = val }) a
  node_append_range size old (idx + 1) (old.nkeys - (idx + 1)) b

unfoldable pub leaf_delete : ℕ → BNode → ℕ → Result BNode
leaf_delete size old idx = do
  a ← node_append_range size old 0 idx (set_header bnode_leaf (old.nkeys - 1))
  node_append_range size old (idx + 1) (old.nkeys - (idx + 1)) a

unfoldable pub node_merge : ℕ → BNode → BNode → Result BNode
node_merge size left right = do
  a ← node_append_range size left 0 left.nkeys (set_header left.btype (left.nkeys + right.nkeys))
  node_append_range size right 0 right.nkeys a

-- A link of an internal node.
abbrev pub link : ℕ → Bytes → Entry
link ptr key = record { ptr = ptr; key = key; val = [] }

unfoldable pub node_replace_2_child : ℕ → BNode → ℕ → ℕ → Bytes → Result BNode
node_replace_2_child size old idx ptr key = do
  a ← node_append_range size old 0 idx (set_header bnode_node (old.nkeys - 1))
  b ← node_append_kv size (link ptr key) a
  node_append_range size old (idx + 2) (old.nkeys - (idx + 2)) b

-- get_key at an index; behind the last entry there are no bytes to read.
unfoldable pub get_key : BNode → ℕ → Bytes
get_key n idx = elim (get_elem? n.entries idx) [ none ↦ [] | some e ↦ e.key ]

unfoldable pub get_val : BNode → ℕ → Bytes
get_val n idx = elim (get_elem? n.entries idx) [ none ↦ [] | some e ↦ e.val ]

unfoldable pub get_ptr : BNode → ℕ → ℕ
get_ptr n idx = elim (get_elem? n.entries idx) [ none ↦ 0 | some e ↦ e.ptr ]

-- The loop of node_lookup_le, between `lo` and the source's hi + 1. An iteration shortens the range, so
-- its length is fuel enough.
unfoldable pub lookup_loop : ℕ → BNode → Bytes → ℕ → ℕ → Option ℕ → Option ℕ
lookup_loop zero node key lo end result = result
lookup_loop (suc fuel) node key lo end result =
    let mid = lo + (end - 1 - lo) / 2 in
    let above = lookup_loop fuel node key (mid + 1) end (some mid) in
    let below = lookup_loop fuel node key lo mid result in
    if ltb lo end
    then elim (lex (get_key node mid) key) [
      | Ordering.eq ↦ some mid
      | Ordering.lt ↦ above
      | Ordering.gt ↦ below
    ]
    else result

-- None is the source's -1.
unfoldable pub node_lookup_le : BNode → Bytes → Option ℕ
node_lookup_le node key = lookup_loop node.nkeys node key 0 node.nkeys none

-- `4 + 8 * nleft + 2 * nleft + old.get_offset(nleft)` of node_split, as a uint16_t.
abbrev pub left_bytes : BNode → ℕ → ℕ
left_bytes old nleft =
    (4 + 8 * nleft + 2 * nleft + offset (take nleft old.entries) % 2 ^ 16) % 2 ^ 16

abbrev pub right_bytes : BNode → ℕ → ℕ
right_bytes old nleft = (nbytes old + 4 + (2 ^ 16 - left_bytes old nleft)) % 2 ^ 16

-- The first loop of node_split.
unfoldable pub shrink_left : BNode → ℕ → ℕ
shrink_left old zero = zero
shrink_left old (suc nleft) =
    let fewer = shrink_left old nleft in
    if ltb btree_page_size (left_bytes old (suc nleft)) then fewer else suc nleft

-- The second one; it ends at the last entry.
unfoldable pub grow_left : ℕ → BNode → ℕ → ℕ
grow_left zero old nleft = nleft
grow_left (suc fuel) old nleft =
    let more = grow_left fuel old (nleft + 1) in
    if ltb btree_page_size (right_bytes old nleft) then more else nleft

unfoldable pub split_point : BNode → ℕ
split_point old = grow_left old.nkeys old (shrink_left old (old.nkeys / 2))

unfoldable pub node_split : BNode → Result (BNode × BNode)
node_split old = do
  ensure (leb 2 old.nkeys) asserted
  ensure (leb 1 (shrink_left old (old.nkeys / 2))) asserted
  let nleft = split_point old
  ensure (ltb nleft old.nkeys) asserted
  left ← node_append_range btree_page_size old 0 nleft (set_header old.btype nleft)
  right ←
      node_append_range btree_page_size old nleft (old.nkeys - nleft)
        (set_header old.btype (old.nkeys - nleft))
  ensure (leb (nbytes left) btree_page_size) asserted
  ensure (leb (nbytes right) btree_page_size) asserted
  ok (left, right)

unfoldable pub node_split_if_needed : BNode → Result (List BNode)
node_split_if_needed node =
    if leb (nbytes node) btree_page_size
    then ok (node ∷ [])
    else node_split node >>= λ (left, right). ok (left ∷ right ∷ [])
