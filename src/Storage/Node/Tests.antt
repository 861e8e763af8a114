-- ===== src/Storage/Node/Tests.antt =====
-- The buffer of a leaf with room for one entry.
use sqldb.Base.{◌≡◌, refl, [], ◌∷◌, length, replicate, Bytes, ok, arith}
use sqldb.Storage.Kv.{le_bytes}
use sqldb.Storage.Node
use sqldb.Storage.Node.{Entry, BNode, offset}
use sqldb.Storage.Node.Buffer
use sqldb.Storage.Node.Layout.{Layout, ptrs, offsets, kvs}
use sqldb.Storage.Node.Stored.{get-Layout}
use sqldb.Storage.Node.Encode.{encode-Layout}
use sqldb.Storage.Node.Append.{node_append_kv-Layout}

abbrev pair : Entry
pair = record { ptr = 7; key = 5 ∷ []; val = 9 ∷ 8 ∷ [] }

abbrev empty_leaf : BNode
empty_leaf = record { btype = 2; nkeys = 1; entries = [] }

abbrev full_leaf : BNode
full_leaf = record { btype = 2; nkeys = 1; entries = pair ∷ [] }

abbrev empty_raw : Bytes
empty_raw = 2 ∷ 0 ∷ 1 ∷ 0 ∷ replicate 20 0

empty_raw-Layout : Layout empty_raw empty_leaf
unfolding le_bytes offset ptrs offsets kvs
empty_raw-Layout = record {
  free_ptrs = replicate 8 0;
  free_offsets = replicate 2 0;
  free_kvs = replicate 10 0;
  whole = refl;
  ptrs_long = refl;
  offsets_long = refl;
  type_small = omega arith;
  count_small = omega arith;
  data_small = omega arith;
}

abbrev full_raw : Bytes
full_raw = 2 ∷ 0 ∷ 1 ∷ 0 ∷ 7 ∷ 0 ∷ 0 ∷ 0 ∷ 0 ∷ 0 ∷ 0 ∷ 0 ∷ 7 ∷ 0 ∷ 1 ∷ 0 ∷ 2 ∷ 0 ∷ 5 ∷ 9 ∷ 8 ∷ []

full_raw-Layout : Layout full_raw full_leaf
unfolding le_bytes offset ptrs offsets kvs
full_raw-Layout = record {
  free_ptrs = [];
  free_offsets = [];
  free_kvs = [];
  whole = refl;
  ptrs_long = refl;
  offsets_long = refl;
  type_small = omega arith;
  count_small = omega arith;
  data_small = omega arith;
}

get-Layout_example :
    (Buffer.get_ptr full_raw 0 ≡ 7)
    × (Buffer.get_key full_raw 0 ≡ 5 ∷ [])
    × (Buffer.get_val full_raw 0 ≡ 9 ∷ 8 ∷ [])
get-Layout_example =
    get-Layout full_raw full_leaf 0 pair full_raw-Layout refl (omega arith, omega arith)
      (omega arith)

node_append_kv-Layout_example :
    (Node.node_append_kv 24 pair empty_leaf ≡ ok full_leaf)
    × (grown : Bytes) × (Buffer.node_append_kv 0 7 (5 ∷ []) (9 ∷ 8 ∷ []) empty_raw ≡ ok grown)
    × Layout grown full_leaf
    × (length grown ≡ 24)
unfolding offset
node_append_kv-Layout_example =
    node_append_kv-Layout empty_raw empty_leaf pair empty_raw-Layout (omega arith)
      (omega arith, omega arith) (omega arith) (omega arith)

encode-Layout_example :
    (page : Bytes) × (Buffer.encode full_raw ≡ ok page)
    × (Buffer.decode page ≡ ok page)
    × Layout page full_leaf
unfolding offset
encode-Layout_example = encode-Layout full_raw full_leaf full_raw-Layout refl (omega arith)
