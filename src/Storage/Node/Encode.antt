-- ===== src/Storage/Node/Encode.antt =====
-- encode puts the bytes of a whole node into a page, and decode takes them out.
use sqldb.Base.{
  ℕ, ◌+◌, ◌-◌, ◌*◌, ◌≤◌, ◌≡◌, refl, sym, ap, ◌∙◌, List, [], ◌∷◌, ◌++◌, append-nil, append_assoc,
  length, length-append, length-replicate, replicate, take, take_all, leb, true, ◌==◌, Bytes, ok,
  arith,
}
use sqldb.Storage.Kv.{le_bytes}
use sqldb.Storage.Node.{BNode, offset, btree_page_size}
use sqldb.Storage.Node.Buffer
use sqldb.Storage.Node.Pieces.{join, length-join, length-le_bytes, take_front}
use sqldb.Storage.Node.Layout.{
  Layout, ptrs, offsets, kvs, length-ptrs, length-offsets, length-kvs, nkeys-pieces,
  get_offset-pieces,
}

join_last : (ls : List Bytes) (d f : Bytes) → join (ls ++ (d ++ f) ∷ []) ≡ join (ls ++ d ∷ []) ++ f
join_last [] d f = append-nil (d ++ f) ∙ ap (λ m. m ++ f) (sym (append-nil d))
join_last (l ∷ ls) d f =
    ap (λ m. l ++ m) (join_last ls d f) ∙ sym (append_assoc l (join (ls ++ d ∷ [])) f)

module _ (raw : Bytes) (n : BNode) (l : Layout raw n) (all : length n.entries ≡ n.nkeys)
    (small : 4 + n.nkeys * 8 + n.nkeys * 2 + offset n.entries ≤ btree_page_size) where
  abbrev heads : List Bytes
  heads =
      le_bytes 2 n.btype
      ∷ le_bytes 2 n.nkeys
      ∷ (ptrs n.entries ++ l.free_ptrs)
      ∷ (offsets 0 n.entries ++ l.free_offsets)
      ∷ []

  abbrev front : Bytes
  front = join (heads ++ kvs n.entries ∷ [])

  length-front : length front ≡ 4 + n.nkeys * 8 + n.nkeys * 2 + offset n.entries
  length-front =
      length-join (heads ++ kvs n.entries ∷ [])
      ∙ omega (
        arith,
        length-le_bytes 2 n.btype,
        length-le_bytes 2 n.nkeys,
        l.ptrs_long,
        l.offsets_long,
        length-append (ptrs n.entries) l.free_ptrs,
        length-ptrs n.entries,
        length-append (offsets 0 n.entries) l.free_offsets,
        length-offsets 0 n.entries,
        length-kvs n.entries,
      )

  raw-front : raw ≡ front ++ l.free_kvs
  raw-front = l.whole ∙ join_last heads (kvs n.entries) l.free_kvs

  nbytes-front : Buffer.nbytes raw ≡ length front
  nbytes-front =
      let count : Buffer.nkeys raw ≡ n.nkeys =
        ap Buffer.nkeys l.whole
        ∙ nkeys-pieces n.btype n.nkeys (ptrs n.entries ++ l.free_ptrs)
            (offsets 0 n.entries ++ l.free_offsets) (kvs n.entries ++ l.free_kvs) l.count_small in
      let ends : Buffer.get_offset raw n.nkeys ≡ offset n.entries =
        ap (λ r. Buffer.get_offset r n.nkeys) l.whole
        ∙ get_offset-pieces n.btype n.nkeys (ptrs n.entries ++ l.free_ptrs) l.free_offsets
            (kvs n.entries ++ l.free_kvs) n.entries n.nkeys l.count_small
            (omega (
              arith,
              l.ptrs_long,
              length-append (ptrs n.entries) l.free_ptrs,
              length-ptrs n.entries,
            ))
            l.data_small (omega (arith, all))
        ∙ ap offset (take_all n.nkeys n.entries (omega (arith, all))) in
      rw (count, ends) (omega (arith, length-front, small))

  abbrev padding : Bytes
  padding = replicate (btree_page_size - length front) 0

  encode_page : Buffer.encode raw ≡ ok (front ++ padding)
  unfolding Buffer.encode
  encode_page =
      let inside : leb (length front) btree_page_size ≡ true =
        ground (arith, length-front, small) in
      let used : take (length front) raw ≡ front =
        ap (take (length front)) raw-front ∙ take_front front l.free_kvs (length front) refl in
      rw (nbytes-front, inside, used) refl

  decode_page : Buffer.decode (front ++ padding) ≡ ok (front ++ padding)
  unfolding Buffer.decode
  decode_page =
      let blank : ℕ = 0 in
      let sized : (length (front ++ padding) == btree_page_size) ≡ true = ground (
        arith,
        length-append front padding,
        length-replicate (btree_page_size - length front) blank,
        length-front,
        small,
      ) in
      rw sized refl

  page-Layout : Layout (front ++ padding) n
  page-Layout = record {
    free_ptrs = l.free_ptrs;
    free_offsets = l.free_offsets;
    free_kvs = padding;
    whole = sym (join_last heads (kvs n.entries) padding);
    ptrs_long = l.ptrs_long;
    offsets_long = l.offsets_long;
    type_small = l.type_small;
    count_small = l.count_small;
    data_small = l.data_small;
  }

-- A whole node that fits into a page is encoded: the page has its layout, and decode returns it.
pub encode-Layout :
    (raw : Bytes) (n : BNode)
    → Layout raw n
    → length n.entries ≡ n.nkeys
    → 4 + n.nkeys * 8 + n.nkeys * 2 + offset n.entries ≤ btree_page_size
    → (page : Bytes) × (Buffer.encode raw ≡ ok page)
      × (Buffer.decode page ≡ ok page)
      × Layout page n
encode-Layout raw n l all small = (
  front raw n l all small ++ padding raw n l all small,
  encode_page raw n l all small,
  decode_page raw n l all small,
  page-Layout raw n l all small,
)
