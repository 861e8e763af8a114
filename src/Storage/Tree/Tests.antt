-- ===== src/Storage/Tree/Tests.antt =====
-- Nodes and trees at concrete pages.
use sqldb.Base.{
  true, false, ℕ, ◌+◌, ◌-◌, ◌≤◌, ◌<◌, ◌≡◌, ◌≢◌, refl, List, [], ◌∷◌, length, length-replicate,
  replicate, take, drop, some, none, ◌⊎◌, ok, stop, asserted, Bytes, lex, bytes_eq, arith,
  if◌then◌else◌, ◌==◌,
}
use sqldb.Storage.SortedMap.{Pairs, Sorted, put, find, erase}
use sqldb.Storage.Node
use sqldb.Storage.Node.{
  Entry, BNode, offset, link, get_key, node_lookup_le, node_split, bnode_leaf, bnode_node,
  btree_page_size,
}
use sqldb.Storage.Node.Build.{Fits, IsComplete, used}
use sqldb.Storage.Node.Split.{node_split-ok}
use sqldb.Storage.Node.Lookup.{IsFloor, node_lookup_le-IsFloor}
use sqldb.Storage.PageManager.Growing.{Store, store_pages}
use sqldb.Storage.Tree.Delete.{merge_none, should_merge, tree_delete, node_delete}
use sqldb.Storage.Tree.Delete
use sqldb.Storage.Tree.Delete.Correct.{Crowded, remove-erase}
use sqldb.Storage.Tree
use sqldb.Storage.Tree.Get.{IsTree, tree, get-find}
use sqldb.Storage.Tree.Shape.{Extends}
use sqldb.Storage.Tree.Versions.{rooted, insert-put}
use sqldb.Storage.Kv.Tx.{Reply, insert_only, update, update-put, is_absent, or_empty, Allows}
use sqldb.Storage.Tree.Overflow.{node_delete_overflow}

abbrev leaf_entry : Bytes → Bytes → Entry
leaf_entry key val = record { ptr = 0; key = key; val = val }

-- A leaf with two keys, at page 1.
abbrev two_keys : BNode
two_keys = record {
  btype = bnode_leaf;
  nkeys = 2;
  entries = leaf_entry [] [] ∷ leaf_entry (5 ∷ []) (9 ∷ []) ∷ [];
}

two_keys-IsComplete : IsComplete two_keys
two_keys-IsComplete = record {
  counted = refl;
  fitting = ((omega arith, omega arith), ((omega arith, omega arith), tt));
}

two_keys-Sorted : Sorted (([], []) ∷ (5 ∷ [], 9 ∷ []) ∷ [])
unfolding lex
two_keys-Sorted = ((refl, tt), (tt, tt))

node_lookup_le-IsFloor_example : IsFloor two_keys (7 ∷ []) (node_lookup_le two_keys (7 ∷ []))
node_lookup_le-IsFloor_example = node_lookup_le-IsFloor two_keys (7 ∷ []) refl two_keys-Sorted

abbrev five : Bytes
five = 5 ∷ []

abbrev one_page : Store
one_page = record { last = 1; page = λ p. ok two_keys }

two_keys-IsTree : IsTree store_pages 0 1 one_page (([], []) ∷ (5 ∷ [], 9 ∷ []) ∷ [])
unfolding offset
two_keys-IsTree =
    tree 0 1 one_page two_keys [] ((5 ∷ [], 9 ∷ []) ∷ []) (omega arith) (omega arith, omega arith)
      refl two_keys-IsComplete (omega arith) two_keys-Sorted (refl, refl)

get-find_example :
    Tree.get store_pages 1 1 (5 ∷ []) one_page
    ≡ ok (find (5 ∷ []) (([], []) ∷ (5 ∷ [], 9 ∷ []) ∷ []))
unfolding Tree.check_key_limit
get-find_example =
    get-find store_pages 0 1 1 one_page (5 ∷ []) (([], []) ∷ (5 ∷ [], 9 ∷ []) ∷ []) (omega arith)
      two_keys-IsTree refl

insert-put_example :
    (h : ℕ) × (root : ℕ) × (t : Store) × (Tree.insert store_pages 1 1 (7 ∷ []) (8 ∷ []) one_page
      ≡ ok (root, t))
    × IsTree store_pages h root t
        (put (7 ∷ []) (8 ∷ []) (rooted (([], []) ∷ (5 ∷ [], 9 ∷ []) ∷ [])))
    × (h ≤ 0 + 1)
    × Extends store_pages one_page t
unfolding Tree.check_limit Tree.check_key_limit
insert-put_example =
    insert-put store_pages 0 1 1 one_page (7 ∷ []) (8 ∷ []) (([], []) ∷ (5 ∷ [], 9 ∷ []) ∷ [])
      (omega arith) two_keys-IsTree refl

abbrev seven : ℕ
seven = 7

abbrev two_pairs : Pairs
two_pairs = ([], []) ∷ (5 ∷ [], 9 ∷ []) ∷ []

update-put_example :
    (r : Reply (ℕ × Store)) × (update store_pages 1 insert_only (5 ∷ []) (8 ∷ []) 1 one_page ≡ ok r)
    × (r.added ≡ is_absent (find (5 ∷ []) two_pairs))
    × (r.old ≡ or_empty (find (5 ∷ []) two_pairs))
    × (Allows insert_only (find (5 ∷ []) two_pairs)
        → (r.done ≡ true)
          × (h : ℕ) × IsTree store_pages h r.store.0 r.store.1
              (put (5 ∷ []) (8 ∷ []) (rooted two_pairs))
          × (h ≤ 0 + 1))
    × (¬ (Allows insert_only (find (5 ∷ []) two_pairs))
        → (r.done ≡ false) × (r.store ≡ (1, one_page)))
unfolding Tree.check_limit Tree.check_key_limit
update-put_example =
    update-put store_pages 0 1 1 one_page insert_only (5 ∷ []) (8 ∷ []) two_pairs (omega arith)
      two_keys-IsTree refl

-- Links with keys of the greatest size.
abbrev long_link : Entry
long_link = link 1 (replicate 1000 seven)

abbrev links_of : List Entry → BNode
links_of es = record { btype = bnode_node; nkeys = length es; entries = es }

abbrev five_links : BNode
five_links = links_of (long_link ∷ long_link ∷ long_link ∷ long_link ∷ long_link ∷ [])

long_link-Fits : Fits long_link
long_link-Fits = (omega (arith, length-replicate 1000 seven), omega arith)

five_links-IsComplete : IsComplete five_links
five_links-IsComplete = record {
  counted = refl;
  fitting =
      (long_link-Fits, (long_link-Fits, (long_link-Fits, (long_link-Fits, (long_link-Fits, tt)))));
}

five_links-used : used five_links.entries ≡ 5074
unfolding offset
five_links-used = omega (arith, length-replicate 1000 seven)

node_split-ok_example :
    (k : ℕ) × (0 < k)
    × (k < five_links.nkeys)
    × (node_split five_links
        ≡ ok (
          record { btype = five_links.btype; nkeys = k; entries = take k five_links.entries },
          record {
            btype = five_links.btype;
            nkeys = five_links.nkeys - k;
            entries = drop k five_links.entries;
          },
        ))
    × (used (take k five_links.entries) ≤ btree_page_size)
    × (used (drop k five_links.entries) ≤ btree_page_size)
node_split-ok_example =
    node_split-ok five_links five_links-IsComplete (omega (arith, five_links-used))
      (omega (arith, five_links-used))

-- A node with a short link and four long ones, and the leaf under the short link, whose second key is long.
abbrev short_link : Entry
short_link = link 2 (3 ∷ [])

abbrev full_links : BNode
full_links = links_of (short_link ∷ long_link ∷ long_link ∷ long_link ∷ long_link ∷ [])

abbrev long_entry : Entry
long_entry = leaf_entry (replicate 1000 seven) (replicate 100 seven)

abbrev leaf_of : List Entry → BNode
leaf_of es = record { btype = bnode_leaf; nkeys = length es; entries = es }

abbrev long_leaf : BNode
long_leaf = leaf_of (leaf_entry (3 ∷ []) [] ∷ long_entry ∷ [])

abbrev long_store : Store
long_store = record { last = 2; page = λ p. if p == 2 then ok long_leaf else ok full_links }

long_entry-Fits : Fits long_entry
long_entry-Fits =
    (omega (arith, length-replicate 1000 seven), omega (arith, length-replicate 100 seven))

long_entry-offset : offset (long_entry ∷ []) ≡ 1104
unfolding offset
long_entry-offset = omega (arith, length-replicate 1000 seven, length-replicate 100 seven)

full_links-IsComplete : IsComplete full_links
full_links-IsComplete = record {
  counted = refl;
  fitting = (
    (omega arith, omega arith),
    (long_link-Fits, (long_link-Fits, (long_link-Fits, (long_link-Fits, tt)))),
  );
}

full_links-used : used full_links.entries ≡ 4075
unfolding offset
full_links-used = omega (arith, length-replicate 1000 seven)

long_leaf_key : length (get_key (leaf_of (long_entry ∷ [])) 0) ≡ 1000
unfolding get_key
long_leaf_key = length-replicate 1000 seven

-- The key 3 goes from the leaf.
long_leaf_left :
    tree_delete store_pages 1 (3 ∷ []) long_store long_leaf
    ≡ ok (some (leaf_of (long_entry ∷ []), long_store))
unfolding tree_delete Delete.leaf_erase node_lookup_le Node.lookup_loop Node.leaf_delete
    Node.node_append_range Node.append_all Node.node_append_kv offset get_key lex bytes_eq
long_leaf_left = refl

long_leaf_alone :
    should_merge store_pages long_store full_links 0 (leaf_of (long_entry ∷ [])) ≡ ok merge_none
unfolding should_merge
long_leaf_alone =
    let size : Node.nbytes (leaf_of (long_entry ∷ [])) ≡ 1118 = ground (arith, long_entry-offset) in
    rw size refl

node_delete_overflow_example :
    node_delete store_pages (tree_delete store_pages 1 (3 ∷ [])) full_links 0 long_store
    ≡ stop asserted
node_delete_overflow_example =
    node_delete_overflow store_pages (tree_delete store_pages 1 (3 ∷ [])) full_links long_leaf
      (leaf_of (long_entry ∷ [])) 0 short_link long_store long_store full_links-IsComplete
      (record { counted = refl; fitting = (long_entry-Fits, tt) }) (omega arith)
      (omega (arith, full_links-used)) refl refl refl long_leaf_left long_leaf_alone
      (omega (arith, full_links-used, long_leaf_key))

-- The key 5 goes, and the empty key stays.
remove-erase_example :
    ((Crowded store_pages one_page × (Delete.remove store_pages 1 1 five one_page ≡ stop asserted))
      ⊎ ((Delete.remove store_pages 1 1 five one_page ≡ ok none)
          × (find five (([], []) ∷ (5 ∷ [], 9 ∷ []) ∷ []) ≡ none)))
    ⊎ ((h : ℕ) × (root : ℕ) × (t : Store) × (Delete.remove store_pages 1 1 five one_page
          ≡ ok (some (root, t)))
        × (find five (([], []) ∷ (5 ∷ [], 9 ∷ []) ∷ []) ≢ none)
        × IsTree store_pages h root t (erase five (([], []) ∷ (5 ∷ [], 9 ∷ []) ∷ []))
        × (h ≤ 0)
        × Extends store_pages one_page t)
unfolding Tree.check_key_limit
remove-erase_example =
    remove-erase store_pages 0 1 1 one_page five (([], []) ∷ (5 ∷ [], 9 ∷ []) ∷ []) (omega arith)
      two_keys-IsTree refl
