-- ===== src/Storage/Node/Stored.antt =====
-- The accessors of a node read its entries back from the buffer, and node_append_kv writes one more.
use sqldb.Base.{
  ap₂, ℕ, suc, ◌+◌, ◌*◌, ◌^◌, ◌<◌, ◌≡◌, refl, sym, ap, ◌∙◌, List, [], ◌∷◌, ◌++◌, append_assoc, some,
  length, length-append, length-take, get_elem?, get_elem?-lt, take, drop, Bytes, arith,
}
use sqldb.Storage.Kv.{le_bytes}
use sqldb.Storage.Node.{Entry, BNode, offset}
use sqldb.Storage.Node.Build.{Fits}
use sqldb.Storage.Node.Buffer
use sqldb.Storage.Node.Buffer.{poke, write_word}
use sqldb.Storage.Node.Pieces.{join, size, length-le_bytes, read_2, read_8, peek_in}
use sqldb.Storage.Node.Layout.{
  Layout, ptrs, offsets, kv, kvs, length-ptrs, length-offsets, length-kvs, ptrs-split, kvs-split,
  before_room, nkeys-pieces, get_offset-pieces,
}

-- The parts of an entry that stands behind others in the buffer of a node.
module _ (raw : Bytes) (n : BNode) (l : Layout raw n) (i : ℕ) (e : Entry)
    (at : get_elem? n.entries i ≡ some e) (fits : Fits e) where
  kv_pos-Layout : Buffer.kv_pos raw i ≡ 4 + n.nkeys * 8 + n.nkeys * 2 + offset (take i n.entries)
  kv_pos-Layout =
      let ps = ptrs n.entries ++ l.free_ptrs in
      let ds = kvs n.entries ++ l.free_kvs in
      let within = get_elem?-lt n.entries i e at in
      rw
        (
          l.whole,
          nkeys-pieces n.btype n.nkeys ps (offsets 0 n.entries ++ l.free_offsets) ds l.count_small,
          get_offset-pieces n.btype n.nkeys ps l.free_offsets ds n.entries i l.count_small
              (omega (
                arith,
                l.ptrs_long,
                length-append (ptrs n.entries) l.free_ptrs,
                length-ptrs n.entries,
              ))
              l.data_small (omega arith),
        )
        refl

  get_ptr-Layout : e.ptr < 2 ^ 64 → Buffer.get_ptr raw i ≡ e.ptr
  get_ptr-Layout small =
      let rest = ptrs (drop (suc i) n.entries) in
      let ps =
        ap (λ m. m ++ l.free_ptrs) (ptrs-split n.entries i e at)
        ∙ before_room (ptrs (take i n.entries)) (le_bytes 8 e.ptr) rest l.free_ptrs in
      rw (l.whole, ps)
        (read_8 (le_bytes 2 n.btype ∷ le_bytes 2 n.nkeys ∷ []) (ptrs (take i n.entries))
          (rest ++ l.free_ptrs)
          ((offsets 0 n.entries ++ l.free_offsets) ∷ (kvs n.entries ++ l.free_kvs) ∷ []) e.ptr
          (4 + i * 8)
          (omega (
            arith,
            length-le_bytes 2 n.btype,
            length-le_bytes 2 n.nkeys,
            length-ptrs (take i n.entries),
            length-take i n.entries,
            get_elem?-lt n.entries i e at,
          ))
          small)

  -- The data of the entry, among the others.
  abbrev heads : List Bytes
  heads =
      le_bytes 2 n.btype
      ∷ le_bytes 2 n.nkeys
      ∷ (ptrs n.entries ++ l.free_ptrs)
      ∷ (offsets 0 n.entries ++ l.free_offsets)
      ∷ []

  abbrev behind : Bytes
  behind = kvs (drop (suc i) n.entries) ++ l.free_kvs

  front_size : size heads + length (kvs (take i n.entries)) ≡ Buffer.kv_pos raw i
  front_size = omega (
    arith,
    kv_pos-Layout,
    length-le_bytes 2 n.btype,
    length-le_bytes 2 n.nkeys,
    length-append (ptrs n.entries) l.free_ptrs,
    length-ptrs n.entries,
    l.ptrs_long,
    length-append (offsets 0 n.entries) l.free_offsets,
    length-offsets 0 n.entries,
    l.offsets_long,
    length-kvs (take i n.entries),
  )

  raw_at :
      (front rest : Bytes)
      → kv e ++ behind ≡ front ++ rest
      → raw ≡ join (heads ++ ((kvs (take i n.entries) ++ front) ++ rest) ∷ [])
  raw_at front rest parts =
      l.whole
      ∙ ap (λ d. join (heads ++ d ∷ []))
          (ap (λ m. m ++ l.free_kvs) (kvs-split n.entries i e at)
            ∙ before_room (kvs (take i n.entries)) (kv e) (kvs (drop (suc i) n.entries)) l.free_kvs
            ∙ ap (λ m. kvs (take i n.entries) ++ m) parts
            ∙ sym (append_assoc (kvs (take i n.entries)) front rest))

  place_at :
      (front : Bytes)
      → Buffer.kv_pos raw i + length front ≡ size heads + length (kvs (take i n.entries) ++ front)
  place_at front = omega (arith, front_size, length-append (kvs (take i n.entries)) front)

  key_length : Buffer.read_word 2 raw (Buffer.kv_pos raw i) ≡ length e.key
  unfolding le_bytes
  key_length =
      ap (λ r. Buffer.read_word 2 r (Buffer.kv_pos raw i)) (raw_at [] (kv e ++ behind) refl)
      ∙ read_2 heads (kvs (take i n.entries) ++ [])
          (le_bytes 2 (length e.val) ++ ((e.key ++ e.val) ++ behind)) [] (length e.key)
          (Buffer.kv_pos raw i) (omega (arith, place_at [])) (omega (arith, fits.0))

  val_length : Buffer.read_word 2 raw (Buffer.kv_pos raw i + 2) ≡ length e.val
  unfolding le_bytes
  val_length =
      ap (λ r. Buffer.read_word 2 r (Buffer.kv_pos raw i + 2))
        (raw_at (le_bytes 2 (length e.key))
          (le_bytes 2 (length e.val) ++ ((e.key ++ e.val) ++ behind)) refl)
      ∙ read_2 heads (kvs (take i n.entries) ++ le_bytes 2 (length e.key))
          ((e.key ++ e.val) ++ behind) [] (length e.val) (Buffer.kv_pos raw i + 2)
          (omega (arith, place_at (le_bytes 2 (length e.key)))) (omega (arith, fits.1))

  get_key-Layout : Buffer.get_key raw i ≡ e.key
  unfolding Buffer.get_key le_bytes
  get_key-Layout =
      ap (λ m. Buffer.peek raw (Buffer.kv_pos raw i + 4) m) key_length
      ∙ ap (λ r. Buffer.peek r (Buffer.kv_pos raw i + 4) (length e.key))
          (raw_at (le_bytes 2 (length e.key) ++ le_bytes 2 (length e.val))
            (e.key ++ (e.val ++ behind))
            (ap (λ m. le_bytes 2 (length e.key) ++ (le_bytes 2 (length e.val) ++ m))
              (append_assoc e.key e.val behind)))
      ∙ peek_in heads
          (kvs (take i n.entries) ++ (le_bytes 2 (length e.key) ++ le_bytes 2 (length e.val))) e.key
          (e.val ++ behind) [] (Buffer.kv_pos raw i + 4) (length e.key)
          (omega (arith, place_at (le_bytes 2 (length e.key) ++ le_bytes 2 (length e.val)))) refl

  get_val-Layout : Buffer.get_val raw i ≡ e.val
  unfolding Buffer.get_val le_bytes
  get_val-Layout =
      let front = le_bytes 2 (length e.key) ++ (le_bytes 2 (length e.val) ++ e.key) in
      let pos = Buffer.kv_pos raw i in
      ap₂ (λ j m. Buffer.peek raw (pos + 4 + j) m) key_length val_length
      ∙ ap (λ r. Buffer.peek r (pos + 4 + length e.key) (length e.val))
          (raw_at front (e.val ++ behind) (
            ap (λ m. le_bytes 2 (length e.key) ++ (le_bytes 2 (length e.val) ++ m))
              (append_assoc e.key e.val behind)))
      ∙ peek_in heads (kvs (take i n.entries) ++ front) e.val behind [] (pos + 4 + length e.key)
          (length e.val) (omega (arith, place_at front)) refl

-- Where the buffer of a node has its layout, get_ptr, get_key and get_val read each entry back from the
-- bytes, for keys and values within the limits and a pointer of 64 bits.
pub get-Layout :
    (raw : Bytes) (n : BNode) (i : ℕ) (e : Entry)
    → Layout raw n
    → get_elem? n.entries i ≡ some e
    → Fits e
    → e.ptr < 2 ^ 64
    → (Buffer.get_ptr raw i ≡ e.ptr)
      × (Buffer.get_key raw i ≡ e.key)
      × (Buffer.get_val raw i ≡ e.val)
get-Layout raw n i e l at fits small = (
  get_ptr-Layout raw n l i e at fits small,
  get_key-Layout raw n l i e at fits,
  get_val-Layout raw n l i e at fits,
)
