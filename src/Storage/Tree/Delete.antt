-- ===== src/Storage/Tree/Delete.antt =====
-- Deletion from the B+tree: should_merge, tree_delete, node_delete and BTree::remove of
-- src/storage/btree.cpp.
pub mod Pieces
pub mod Siblings
pub mod Relink
pub mod Correct
use sqldb.Base.{
  ℕ, zero, suc, ◌+◌, ◌-◌, ◌/◌, Bool, ◌&&◌, [], ◌∷◌, Option, none, some, ltb, leb, ◌==◌,
  if◌then◌else◌, Bytes, Result, ok, stop, asserted, out_of_fuel, ◌>>=◌, ◌>>◌, ensure,
}
use sqldb.Storage.Node.{
  BNode, nbytes, set_header, leaf_delete, node_merge, node_replace_2_child, node_lookup_le, get_key,
  get_ptr, bnode_node, btree_page_size,
}
use sqldb.Storage.PageManager.{PageManager}
use sqldb.Storage.Tree.{Step, check_key_limit, is_at, at_index, by_type, node_replace_child_n}

-- MergeDirection, with the sibling.
pub data Merge : Type 0 where
  merge_none : Merge
  merge_left merge_right : BNode → Merge

-- The sizes of pages, as should_merge compares them.
abbrev pub fits_with : BNode → BNode → Bool
fits_with sibling updated = leb (nbytes sibling + nbytes updated - 4) btree_page_size

module _ {S : Type 0} (pages : PageManager S) where
  -- The sibling at an index, where it is small enough.
  unfoldable pub try_sibling : S → BNode → ℕ → BNode → (BNode → Merge) → Result Merge → Result Merge
  try_sibling s node i updated side otherwise = do
    sibling ← pages.get s (get_ptr node i)
    if fits_with sibling updated then ok (side sibling) else otherwise

  unfoldable pub should_merge : S → BNode → ℕ → BNode → Result Merge
  should_merge s node idx updated =
      let right =
        if ltb (idx + 1) node.nkeys
        then try_sibling s node (idx + 1) updated merge_right (ok merge_none)
        else ok merge_none in
      let left =
        if ltb 0 idx then try_sibling s node (idx - 1) updated merge_left right else right in
      if ltb (btree_page_size / 4) (nbytes updated) then ok merge_none else left

  -- The cases of node_delete, behind the deletion from the child.
  unfoldable pub relink : BNode → ℕ → BNode → Merge → S → Step S
  relink old idx updated (merge_left sibling) s = do
    merged ← node_merge btree_page_size sibling updated
    let (p, t) = pages.new_page (pages.del s (get_ptr old (idx - 1))) merged
    n ← node_replace_2_child btree_page_size old (idx - 1) p (get_key merged 0)
    ok (n, t)
  relink old idx updated (merge_right sibling) s = do
    merged ← node_merge btree_page_size updated sibling
    let (p, t) = pages.new_page (pages.del s (get_ptr old (idx + 1))) merged
    n ← node_replace_2_child btree_page_size old idx p (get_key merged 0)
    ok (n, t)
  relink old idx updated merge_none s =
      let emptied = (do
        ensure ((old.nkeys == 1) && (idx == 0)) asserted
        ok (set_header bnode_node 0, s)) in
      let replaced = node_replace_child_n pages btree_page_size old idx (updated ∷ []) s in
      if updated.nkeys == 0 then emptied else replaced

  -- node_delete, with tree_delete as an argument. None is the node without data of the source.
  unfoldable pub node_delete :
      (S → BNode → Result (Option (BNode × S))) → BNode → ℕ → S → Result (Option (BNode × S))
  node_delete delete_from old idx s = do
    let child_ptr = get_ptr old idx
    child ← pages.get s child_ptr
    found ← delete_from s child
    elim found [
      | none ↦ ok none
      | some r ↦ do
        let t = pages.del r.1 child_ptr
        side ← should_merge t old idx r.0
        n ← relink old idx r.0 side t
        ok (some n)
    ]

  -- The leaf case of tree_delete.
  unfoldable pub leaf_erase : BNode → Option ℕ → Bytes → Result (Option BNode)
  leaf_erase node none key = ok none
  leaf_erase node (some idx) key =
      if is_at node idx key
      then (leaf_delete btree_page_size node idx >>= λ n. ok (some n))
      else ok none

  abbrev pub with_pages : S → Option BNode → Option (BNode × S)
  with_pages s none = none
  with_pages s (some n) = some (n, s)

  unfoldable pub tree_delete : ℕ → Bytes → S → BNode → Result (Option (BNode × S))
  tree_delete zero key s node = stop out_of_fuel
  tree_delete (suc fuel) key s node =
      by_type node (leaf_erase node (node_lookup_le node key) key >>= λ n. ok (with_pages s n))
        (at_index (node_lookup_le node key) λ idx. node_delete (tree_delete fuel key) node idx s)

  -- BTree::remove: none where it returns false.
  unfoldable pub remove_found : Option (BNode × S) → ℕ → Option (ℕ × S)
  remove_found none root = none
  remove_found (some r) root =
      let s = pages.del r.1 root in
      if (r.0.btype == bnode_node) && (r.0.nkeys == 1)
      then some (get_ptr r.0 0, s)
      else some (pages.new_page s r.0)

  unfoldable pub remove : ℕ → ℕ → Bytes → S → Result (Option (ℕ × S))
  remove fuel root key s = do
    check_key_limit key
    let removed = (do
      node ← pages.get s root
      found ← tree_delete fuel key s node
      ok (remove_found found root))
    if root == 0 then ok none else removed
