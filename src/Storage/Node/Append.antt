-- ===== src/Storage/Node/Append.antt =====
-- node_append_kv writes an entry into the free room of a node's buffer.
use sqldb.Base.{
  ℕ, ◌+◌, ◌*◌, ◌%◌, ◌^◌, ◌<◌, ◌≤◌, ◌≡◌, refl, sym, ap, ◌∙◌, [], ◌∷◌, ◌++◌, length, length-append,
  length-take, take, drop, take-append-drop, leb, true, Bytes, ok, arith,
}
use sqldb.Storage.Node
use sqldb.Storage.Node.{Entry, BNode, kv_size, offset, btree_max_key_size, btree_max_val_size}
use sqldb.Storage.Node.Build.{Fits}
use sqldb.Storage.Node.Buffer
use sqldb.Storage.Node.Pieces.{join, length-join, length-le_bytes}
use sqldb.Storage.Node.Layout.{
  Layout, ptrs, offsets, kvs, pieces, length-ptrs, length-offsets, length-kvs,
}
use sqldb.Storage.Node.Parts.{gather}
use sqldb.Storage.Node.Write.{at_work, grown, written, kept, grown_size}

-- Free room, as the piece of a length at its head and the rest.
cut :
    (n : ℕ) (room : Bytes)
    → n ≤ length room
    → (xs : Bytes) × (ys : Bytes) × (length xs ≡ n) × (room ≡ xs ++ ys)
cut n room long =
    (take n room, drop n room, omega (arith, length-take n room), sym (take-append-drop n room))

length-Layout :
    (raw : Bytes) (n : BNode) (l : Layout raw n)
    → length raw ≡ 4 + n.nkeys * 8 + n.nkeys * 2 + offset n.entries + length l.free_kvs
length-Layout raw n l =
    ap length l.whole
    ∙ length-join (
        pieces n.btype n.nkeys (ptrs n.entries ++ l.free_ptrs)
          (offsets 0 n.entries ++ l.free_offsets) (kvs n.entries ++ l.free_kvs))
    ∙ omega (
      arith,
      length-le_bytes 2 n.btype,
      length-le_bytes 2 n.nkeys,
      l.ptrs_long,
      l.offsets_long,
      length-append (ptrs n.entries) l.free_ptrs,
      length-ptrs n.entries,
      length-append (offsets 0 n.entries) l.free_offsets,
      length-offsets 0 n.entries,
      length-append (kvs n.entries) l.free_kvs,
      length-kvs n.entries,
    )

-- Free room for the data of an entry, as the four pieces that are written and the rest.
record Room (e : Entry) (room : Bytes) : Type 0 where
  k : Bytes
  v : Bytes
  key : Bytes
  val : Bytes
  rest : Bytes
  k_long : length k ≡ 2
  v_long : length v ≡ 2
  key_long : length key ≡ length e.key
  val_long : length val ≡ length e.val
  whole : room ≡ k ++ (v ++ (key ++ (val ++ rest)))

cut-Room : (e : Entry) (room : Bytes) → kv_size e ≤ length room → Room e room
cut-Room e room long =
    let (k, r1, k_long, cut_k) = cut 2 room (omega arith) in
    let left1 = ap length cut_k ∙ length-append k r1 in
    let (v, r2, v_long, cut_v) = cut 2 r1 (omega arith) in
    let left2 = ap length cut_v ∙ length-append v r2 in
    let (key, r3, key_long, cut_key) = cut (length e.key) r2 (omega arith) in
    let left3 = ap length cut_key ∙ length-append key r3 in
    let (val, rest, val_long, cut_val) = cut (length e.val) r3 (omega arith) in
    record {
      k = k;
      v = v;
      key = key;
      val = val;
      rest = rest;
      k_long = k_long;
      v_long = v_long;
      key_long = key_long;
      val_long = val_long;
      whole =
          cut_k
          ∙ ap (λ m. k ++ m) (cut_v ∙ ap (λ m. v ++ m) (cut_key ∙ ap (λ m. key ++ m) cut_val));
    }

-- The same, with the free room in pieces.
node_append_kv_pieces :
    (raw : Bytes) (n : BNode) (e : Entry) (l : Layout raw n) (p fp o fo : Bytes)
    → Fits e
    → Node.kv_pos n + kv_size e ≤ length raw
    → length raw < 2 ^ 16
    → length p ≡ 8
    → length o ≡ 2
    → l.free_ptrs ≡ p ++ fp
    → l.free_offsets ≡ o ++ fo
    → Room e l.free_kvs
    → (grown : Bytes) × (Buffer.node_append_kv (length n.entries) e.ptr e.key e.val raw ≡ ok grown)
      × Layout grown (record n { entries = n.entries ++ e ∷ [] })
      × (length grown ≡ length raw)
node_append_kv_pieces raw n e l p fp o fo fits inside bounded p_long o_long cut_p cut_o f =
    let es = n.entries in
    let room_ptrs : length es * 8 + (length p + length fp) ≡ n.nkeys * 8 =
      omega (arith, l.ptrs_long, ap length cut_p, length-append p fp) in
    let room_offsets : length es * 2 + (length o + length fo) ≡ n.nkeys * 2 =
      omega (arith, l.offsets_long, ap length cut_o, length-append o fo) in
    let same : offset es % 2 ^ 16 ≡ offset es = omega (arith, l.data_small) in
    let grows : offset es + kv_size e < 2 ^ 16 = omega (arith, inside, bounded, same) in
    let start : raw
        ≡ at_work n.btype n.nkeys es l.count_small p fp o fo f.k f.v f.key f.val f.rest =
      l.whole
      ∙ ap
          (λ m. join (
            pieces n.btype n.nkeys (ptrs es ++ m) (offsets 0 es ++ l.free_offsets)
              (kvs es ++ l.free_kvs)))
          cut_p
      ∙ ap
          (λ m. join (
            pieces n.btype n.nkeys (ptrs es ++ (p ++ fp)) (offsets 0 es ++ m)
              (kvs es ++ l.free_kvs)))
          cut_o
      ∙ ap
          (λ m. join (
            pieces n.btype n.nkeys (ptrs es ++ (p ++ fp)) (offsets 0 es ++ (o ++ fo))
              (kvs es ++ m)))
          f.whole
      ∙ sym (
          gather n.btype n.nkeys (ptrs es) p fp (offsets 0 es) o fo (kvs es) f.k f.v f.key f.val
            f.rest) in
    (
      grown n.btype n.nkeys es l.count_small e p fp o fo f.k f.v f.key f.val f.rest p_long o_long
          f.k_long f.v_long f.key_long f.val_long room_ptrs room_offsets grows,
      ap (Buffer.node_append_kv (length es) e.ptr e.key e.val) start
          ∙ written n.btype n.nkeys es l.count_small e p fp o fo f.k f.v f.key f.val f.rest p_long
              o_long f.k_long f.v_long f.key_long f.val_long room_ptrs room_offsets grows fits
              (omega (arith, ap length start, inside, same)),
      kept n.btype n.nkeys es l.count_small e p fp o fo f.k f.v f.key f.val f.rest p_long o_long
          f.k_long f.v_long f.key_long f.val_long room_ptrs room_offsets grows l.type_small,
      grown_size n.btype n.nkeys es l.count_small e p fp o fo f.k f.v f.key f.val f.rest p_long
            o_long f.k_long f.v_long f.key_long f.val_long room_ptrs room_offsets grows
          ∙ ap length (sym start),
    )

-- Where the buffer of a node has its layout, with room for one more pointer: an entry within the limits that
-- fits behind the others, in a buffer whose size is a number of 16 bits, is appended in the bytes as in the
-- node, no assertion fails, and the buffer has the layout of the longer node and its size.
pub node_append_kv-Layout :
    (raw : Bytes) (n : BNode) (e : Entry)
    → Layout raw n
    → length n.entries < n.nkeys
    → Fits e
    → Node.kv_pos n + kv_size e ≤ length raw
    → length raw < 2 ^ 16
    → (Node.node_append_kv (length raw) e n ≡ ok (record n { entries = n.entries ++ e ∷ [] }))
      × (grown : Bytes) × (Buffer.node_append_kv (length n.entries) e.ptr e.key e.val raw
          ≡ ok grown)
      × Layout grown (record n { entries = n.entries ++ e ∷ [] })
      × (length grown ≡ length raw)
unfolding Node.node_append_kv
node_append_kv-Layout raw n e l room fits inside bounded =
    let key_fits : leb (length e.key) btree_max_key_size ≡ true = ground (arith, fits.0) in
    let val_fits : leb (length e.val) btree_max_val_size ≡ true = ground (arith, fits.1) in
    let here : leb (Node.kv_pos n + kv_size e) (length raw) ≡ true = ground (arith, inside) in
    let same : offset n.entries % 2 ^ 16 ≡ offset n.entries = omega (arith, l.data_small) in
    let (p, fp, p_long, cut_p) = cut 8 l.free_ptrs (omega (arith, l.ptrs_long, room)) in
    let (o, fo, o_long, cut_o) = cut 2 l.free_offsets (omega (arith, l.offsets_long, room)) in
    let (grown, call, layout, same_size) =
      node_append_kv_pieces raw n e l p fp o fo fits inside bounded p_long o_long cut_p cut_o
        (cut-Room e l.free_kvs (omega (arith, length-Layout raw n l, inside, same))) in
    (rw (key_fits, val_fits, here) refl, grown, call, layout, same_size)
