-- ===== src/Storage/Iter.antt =====
-- BIter of include/storage/btree_iter.h, and the seeks of src/storage/btree_iter.cpp. The nodes of the path
-- and the positions in them are one list here, whose first element is the source's last: the leaf.
pub mod Seek
pub mod Spine
pub mod Place
pub mod Floor
pub mod Walk
pub mod Range
mod Tests
use sqldb.Base.{
  ℕ, zero, suc, ◌+◌, ◌-◌, Bool, true, false, not, ◌&&◌, ◌||◌, List, [], ◌∷◌, Option, none, some,
  length, ltb, leb, ◌==◌, if◌then◌else◌, Bytes, Result, ok, stop, asserted, out_of_fuel, ◌>>=◌,
  ◌>>◌, ensure,
}
use sqldb.Storage.Cmp.{Cmp, cmp_ok, is_forward}
use sqldb.Storage.Node.{BNode, get_key, get_val, get_ptr, node_lookup_le, bnode_node}
use sqldb.Storage.PageManager.{PageManager}
use sqldb.Storage.Tree.{at_index}

abbrev pub BIter : Type 0
BIter = List (BNode × ℕ)

unfoldable pub valid : BIter → Bool
valid [] = false
valid ((leaf, pos) ∷ levels) = ltb pos leaf.nkeys && (ltb 0 pos || ltb 0 (length (get_key leaf 0)))

unfoldable pub deref : BIter → Result (Bytes × Bytes)
deref [] = stop asserted
deref ((leaf, pos) ∷ levels) = do
  ensure (valid ((leaf, pos) ∷ levels)) asserted
  ok (get_key leaf pos, get_val leaf pos)

module _ {S : Type 0} (pages : PageManager S) where
  -- reload_kid: the node below the level that moved, at its last or its first key.
  unfoldable pub reload_kid : S → Bool → BIter → Result BIter
  reload_kid s at_last [] = ok []
  reload_kid s at_last ((node, pos) ∷ levels) = do
    kid ← pages.get s (get_ptr node pos)
    ok ((kid, if at_last then kid.nkeys - 1 else 0) ∷ (node, pos) ∷ levels)

  -- iter_prev and iter_next, from a level up: none where they return false.
  unfoldable pub iter_prev : S → BIter → Result (Option BIter)
  iter_prev s [] = ok none
  iter_prev s ((node, pos) ∷ levels) =
      let above =
        (iter_prev s levels >>= λ moved. elim moved as (λ _. Result (Option BIter)) [
          | none ↦ ok none
          | some up ↦ reload_kid s true up >>= λ kid. ok (some kid)
        ]) in
      if ltb 0 pos then ok (some ((node, pos - 1) ∷ levels)) else above

  unfoldable pub iter_next : S → BIter → Result (Option BIter)
  iter_next s [] = ok none
  iter_next s ((node, pos) ∷ levels) =
      let above =
        (iter_next s levels >>= λ moved. elim moved as (λ _. Result (Option BIter)) [
          | none ↦ ok none
          | some up ↦ reload_kid s false up >>= λ kid. ok (some kid)
        ]) in
      if ltb (pos + 1) node.nkeys then ok (some ((node, pos + 1) ∷ levels)) else above

  unfoldable pub prev : S → BIter → Result BIter
  prev s iter = do moved ← iter_prev s iter; ok (elim moved [ none ↦ iter | some back ↦ back ])

  -- The position behind the last key.
  abbrev pub past_last : BIter → BIter
  past_last [] = []
  past_last ((leaf, pos) ∷ levels) = (leaf, leaf.nkeys) ∷ levels

  unfoldable pub next : S → BIter → Result BIter
  next s iter = do
    moved ← iter_next s iter
    ok (elim moved [ none ↦ past_last iter | some on ↦ on ])

  -- The loop of seek_le, with the levels above the page.
  unfoldable pub seek_loop : ℕ → Bytes → S → ℕ → BIter → Result BIter
  seek_loop zero key s ptr levels = if ptr == 0 then ok levels else stop out_of_fuel
  seek_loop (suc fuel) key s ptr levels =
      let down =
        (pages.get s ptr >>= λ node. at_index (node_lookup_le node key) λ idx.
          seek_loop fuel key s (if node.btype == bnode_node then get_ptr node idx else 0)
            ((node, idx) ∷ levels)) in
      if ptr == 0 then ok levels else down

  unfoldable pub seek_le : ℕ → ℕ → Bytes → S → Result BIter
  seek_le fuel root key s = seek_loop fuel key s root []

  -- Does the iterator stand at a key that has the relation to the given one?
  unfoldable pub stands_at : BIter → Cmp → Bytes → Result Bool
  stands_at iter cmp key =
      if valid iter then (deref iter >>= λ kv. ok (cmp_ok kv.0 cmp key)) else ok false

  unfoldable pub seek : ℕ → ℕ → Bytes → Cmp → S → Result BIter
  seek fuel root key cmp s = do
    iter ← seek_le fuel root key s
    good ← stands_at iter cmp key
    if not good && is_forward cmp
        then next s iter
        else if not good && valid iter
        then prev s iter
        else ok iter
