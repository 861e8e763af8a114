-- ===== src/Storage/Tree/Overflow.antt =====
-- Where node_delete has no room for the new first key of a child.
use sqldb.Base.{
  ℕ, ◌+◌, ◌-◌, ◌^◌, ◌≤◌, ◌<◌, ◌≡◌, refl, ap, ◌∙◌, false, List, [], ◌∷◌, ◌++◌, length, take, drop,
  get_elem?, get_elem?-lt, ok, stop, asserted, ◌==◌, leb, Bool-cases, inl, inr, All, Option, some,
  Result, arith,
}
use sqldb.Storage.Node.{
  Entry, BNode, kv_size, offset, kv_base_offset, kv_pos, get_key, set_header, node_append_kv,
  append_all, bnode_node, btree_page_size,
}
use sqldb.Storage.Node.Build.{
  Fits, IsComplete, used, splice, piece, offset-append, length-splice, offset-splice, All-splice,
}
use sqldb.Storage.Node.Lookup.{get_ptr_at}
use sqldb.Storage.PageManager.{PageManager}
use sqldb.Storage.Tree.Delete.{merge_none, relink, should_merge, node_delete}
use sqldb.Storage.Tree.Links.{links, node_replace_child_n-links}
use sqldb.Storage.Tree.Replace.{piece_at, get_key_limit}

-- Entries for which the buffer has no room run into the assertion of node_append_kv.
pub append_all-full :
    (size : ℕ) (es : List Entry) (n : BNode)
    → size < 2 ^ 16
    → All Fits es
    → kv_base_offset n.nkeys + offset n.entries ≤ size
    → size < kv_base_offset n.nkeys + offset n.entries + offset es
    → append_all size es n ≡ stop asserted
unfolding append_all node_append_kv offset
append_all-full size [] n small fits room full = absurd (omega arith)
append_all-full size (e ∷ es) n small (fit, fits) room full =
    let next = record n { entries = n.entries ++ e ∷ [] } in
    let grows : offset (n.entries ++ e ∷ []) ≡ offset n.entries + kv_size e =
      omega (arith, offset-append n.entries (e ∷ [])) in
    elim (Bool-cases (leb (kv_pos n + kv_size e) size)) [
      | inl fits_here ↦
          let step : node_append_kv size e n ≡ ok next = ground arith in
          rw step
            (append_all-full size es next small fits (ground (arith, grows)) (omega (arith, grows)))
      | inr no_room ↦
          let step : node_append_kv size e n ≡ stop asserted = ground arith in rw step refl
    ]

-- The link's new key in the place of its old one, where the room is too little.
relink_full :
    {S : Type 0} (pages : PageManager S) (old updated : BNode) (idx : ℕ) (f : Entry) (s : S)
    → IsComplete old
    → IsComplete updated
    → 0 < updated.nkeys
    → used old.entries ≤ btree_page_size
    → get_elem? old.entries idx ≡ some f
    → f.val ≡ []
    → btree_page_size + length f.key < used old.entries + length (get_key updated 0)
    → relink pages old idx updated merge_none s ≡ stop asserted
unfolding relink offset
relink_full pages old updated idx f s complete complete' some_keys small at bare long =
    let es = (links pages (updated ∷ []) s).0 in
    let within = get_elem?-lt old.entries idx f at in
    let keys : (updated.nkeys == 0) ≡ false = ground (arith, some_keys) in
    let fits =
      All-splice old.entries es idx (idx + 1) complete.fitting
        ((get_key_limit updated complete', omega arith), tt) in
    let gone : offset (piece old.entries idx (idx + 1)) ≡ kv_size f =
      ap (λ k. offset (take k (drop idx old.entries))) {x = idx + 1 - idx} {y = 1} (omega arith)
      ∙ piece_at old.entries idx f at in
    let lengths =
      length-splice old.entries es idx (idx + 1) (omega arith) (omega (arith, within)) in
    let bytes = offset-splice old.entries es idx (idx + 1) (omega arith) in
    let full =
      append_all-full btree_page_size (splice old.entries idx es (idx + 1))
        (set_header bnode_node (old.nkeys + 1 - 1)) (omega arith) fits
        (omega (arith, complete.counted))
        (omega (arith, complete.counted, gone, bytes, ap length bare, long)) in
    rw
      (
        keys,
        node_replace_child_n-links pages btree_page_size old idx (updated ∷ []) s complete,
        full,
      )
      refl

-- node_delete puts the new first key of the child that it deleted from in the place of the link's key, in a
-- buffer of a page. Where the deletion leaves entries in the child, should_merge chooses no sibling, and the
-- child's first key is longer than the link's by more than the room that the node has left, node_delete
-- stops at an assertion.
pub node_delete_overflow :
    {S : Type 0} (pages : PageManager S) (delete_from : S → BNode → Result (Option (BNode × S)))
    (old child updated : BNode) (idx : ℕ) (f : Entry) (s t : S)
    → IsComplete old
    → IsComplete updated
    → 0 < updated.nkeys
    → used old.entries ≤ btree_page_size
    → get_elem? old.entries idx ≡ some f
    → f.val ≡ []
    → pages.get s f.ptr ≡ ok child
    → delete_from s child ≡ ok (some (updated, t))
    → should_merge pages (pages.del t f.ptr) old idx updated ≡ ok merge_none
    → btree_page_size + length f.key < used old.entries + length (get_key updated 0)
    → node_delete pages delete_from old idx s ≡ stop asserted
unfolding node_delete
node_delete_overflow pages delete_from old child updated idx f s t complete complete' some_keys
      small at bare stored left alone long =
    let full =
      relink_full pages old updated idx f (pages.del t f.ptr) complete complete' some_keys small at
        bare long in
    rw (get_ptr_at old idx f at, stored, left, get_ptr_at old idx f at, alone, full) refl
