-- ===== src/Storage/Tree.antt =====
-- BTree of include/storage/btree.h and src/storage/btree.cpp: insertion and lookup over a page
-- manager. A recursion goes down a level each time, and takes as fuel the levels that it may go down.
pub mod Shape
pub mod Parts
pub mod Links
pub mod Leaf
pub mod Get
pub mod Replace
pub mod Insert
pub mod Delete
pub mod Versions
pub mod Overflow
mod Tests
use sqldb.Base.{
  ℕ, zero, suc, ◌+◌, ◌-◌, ◌*◌, ◌/◌, ◌<◌, ◌≤◌, ◌≡◌, Bool, true, false, not, ◌&&◌, List, [], ◌∷◌,
  ◌++◌, Option, none, some, length, take, drop, ltb, leb, ◌==◌, if◌then◌else◌, Bytes, text,
  bytes_eq, Result, ok, stop, thrown, asserted, out_of_fuel, invalid_argument, ◌>>=◌, ◌>>◌, ensure,
}
use sqldb.Storage.Node.{
  Entry, BNode, nbytes, set_header, node_append_kv, node_append_range, leaf_insert, leaf_update,
  leaf_delete, node_merge, node_replace_2_child, link, node_lookup_le, node_split_if_needed,
  get_key, get_val, get_ptr, bnode_node, bnode_leaf, btree_page_size, btree_max_key_size,
  btree_max_val_size,
}
use sqldb.Storage.PageManager.{PageManager}

-- The result of a recursive call on a child.
abbrev pub Step : Type 0 → Type 0
Step S = Result (BNode × S)

unfoldable pub check_key_limit : Bytes → Result (Unit {0})
check_key_limit key = do
  ensure (ltb 0 (length key)) (thrown (invalid_argument (text "empty key")))
  ensure (leb (length key) btree_max_key_size) (thrown (invalid_argument (text "key too large")))

unfoldable pub check_limit : Bytes → Bytes → Result (Unit {0})
check_limit key val = do
  check_key_limit key
  ensure (leb (length val) btree_max_val_size) (thrown (invalid_argument (text "value too large")))

-- Does the node at `idx` have the key?
abbrev pub is_at : BNode → ℕ → Bytes → Bool
is_at node idx key = bytes_eq (get_key node idx) key

-- The position that an internal node must have.
abbrev pub at_index {ℓ} : {A : Type ℓ} → Option ℕ → (ℕ → Result A) → Result A
at_index none f = stop asserted
at_index (some idx) f = f idx

-- The switch on the type of the node.
abbrev pub by_type {ℓ} : {A : Type ℓ} → BNode → Result A → Result A → Result A
by_type node leaf inner =
    if node.btype == bnode_leaf
    then leaf
    else if node.btype == bnode_node
    then inner
    else stop asserted

module _ {S : Type 0} (pages : PageManager S) where
  -- The loop of node_replace_child_n: a new page for each child, and a link to it.
  unfoldable pub append_children : ℕ → List BNode → BNode → S → Step S
  append_children size [] new_node s = ok (new_node, s)
  append_children size (c ∷ children) new_node s = do
    let (p, t) = pages.new_page s c
    n ← node_append_kv size (link p (get_key c 0)) new_node
    append_children size children n t

  unfoldable pub node_replace_child_n : ℕ → BNode → ℕ → List BNode → S → Step S
  node_replace_child_n size old idx children s = do
    a ← node_append_range size old 0 idx (set_header bnode_node (old.nkeys + length children - 1))
    (b, t) ← append_children size children a s
    c ← node_append_range size old (idx + 1) (old.nkeys - (idx + 1)) b
    ok (c, t)

  -- node_insert, with tree_insert as an argument.
  unfoldable pub node_insert : (S → BNode → Step S) → BNode → ℕ → S → Step S
  node_insert insert_into old idx s = do
    let child_ptr = get_ptr old idx
    child ← pages.get s child_ptr
    (updated_child, t) ← insert_into s child
    split ← node_split_if_needed updated_child
    node_replace_child_n (2 * btree_page_size) old idx split (pages.del t child_ptr)

  -- The leaf case of tree_insert.
  unfoldable pub leaf_put : BNode → Option ℕ → Bytes → Bytes → Result BNode
  leaf_put node none key val = leaf_insert (2 * btree_page_size) node 0 key val
  leaf_put node (some idx) key val =
      if is_at node idx key
      then leaf_update (2 * btree_page_size) node idx key val
      else leaf_insert (2 * btree_page_size) node (idx + 1) key val

  unfoldable pub tree_insert : ℕ → Bytes → Bytes → S → BNode → Step S
  tree_insert zero key val s node = stop out_of_fuel
  tree_insert (suc fuel) key val s node =
      by_type node (leaf_put node (node_lookup_le node key) key val >>= λ n. ok (n, s)) (
        at_index (node_lookup_le node key) λ idx. node_insert (tree_insert fuel key val) node idx s)

  -- The new level above a root that was split.
  unfoldable pub new_level : List BNode → S → Result (ℕ × S)
  new_level split s = do
    (new_root, t) ← append_children btree_page_size split (set_header bnode_node (length split)) s
    ok (pages.new_page t new_root)

  -- The root of a tree with one key, behind the empty key that every lookup finds.
  unfoldable pub first_root : Bytes → Bytes → Result BNode
  first_root key val = do
    a ←
        node_append_kv btree_page_size (record { ptr = 0; key = []; val = [] })
          (set_header bnode_leaf 2)
    node_append_kv btree_page_size (record { ptr = 0; key = key; val = val }) a

  -- The root behind an insertion, from the nodes of the split.
  unfoldable pub put_root : List BNode → S → Result (ℕ × S)
  put_root [] s = stop asserted
  put_root (n ∷ []) s = ok (pages.new_page s n)
  put_root (n ∷ m ∷ rest) s = new_level (n ∷ m ∷ rest) s

  -- BTree::insert: the new root, and the pages.
  unfoldable pub insert : ℕ → ℕ → Bytes → Bytes → S → Result (ℕ × S)
  insert fuel root key val s = do
    check_limit key val
    let fresh = (first_root key val >>= λ n. ok (pages.new_page s n))
    let grown = (do
      node ← pages.get s root
      (updated, t) ← tree_insert fuel key val s node
      split ← node_split_if_needed updated
      put_root split (pages.del t root))
    if root == 0 then fresh else grown

  -- The loop of BTree::get.
  unfoldable pub get_loop : ℕ → Bytes → S → BNode → Result (Option Bytes)
  get_loop zero key s node = stop out_of_fuel
  get_loop (suc fuel) key s node = elim (node_lookup_le node key) [
    | none ↦ ok none
    | some idx ↦
        let deeper = (pages.get s (get_ptr node idx) >>= λ child. get_loop fuel key s child) in
        if node.btype == bnode_leaf
        then ok (if is_at node idx key then some (get_val node idx) else none)
        else deeper
  ]

  -- BTree::get
  unfoldable pub get : ℕ → ℕ → Bytes → S → Result (Option Bytes)
  get fuel root key s = do
    check_key_limit key
    let found = (pages.get s root >>= λ node. get_loop fuel key s node)
    if root == 0 then ok none else found
