-- ===== src/Storage/Node/Layout.antt =====
-- What stands in the buffer of a node: the layout at the head of src/storage/btree.cpp, and that the accessors
-- read the entries back.
use sqldb.Base.{
  ℕ, zero, suc, ◌+◌, ◌*◌, ◌^◌, ◌<◌, ◌≤◌, ◌≡◌, refl, sym, ap, ◌∙◌, List, [], ◌∷◌, ◌++◌, append_assoc,
  some, length, length-append, length-take, get_elem?, get_elem?-some, take, drop, Bytes, arith,
}
use sqldb.Storage.Kv.{le_bytes}
use sqldb.Storage.Node.{Entry, BNode, kv_size, offset}
use sqldb.Storage.Node.Buffer.{nkeys, get_offset}
use sqldb.Storage.Node.Pieces.{join, length-le_bytes, read_2}

-- The pointers of some entries, the ends of their data, and the data.
unfoldable pub ptrs : List Entry → Bytes
ptrs [] = []
ptrs (e ∷ es) = le_bytes 8 e.ptr ++ ptrs es

unfoldable pub offsets : ℕ → List Entry → Bytes
offsets start [] = []
offsets start (e ∷ es) = le_bytes 2 (start + kv_size e) ++ offsets (start + kv_size e) es

abbrev pub kv : Entry → Bytes
kv e = le_bytes 2 (length e.key) ++ (le_bytes 2 (length e.val) ++ (e.key ++ e.val))

unfoldable pub kvs : List Entry → Bytes
kvs [] = []
kvs (e ∷ es) = kv e ++ kvs es

abbrev pub pieces : ℕ → ℕ → Bytes → Bytes → Bytes → List Bytes
pieces type count ps os ds = le_bytes 2 type ∷ le_bytes 2 count ∷ ps ∷ os ∷ ds ∷ []

-- A buffer holds a node whose first entries have been appended; the rest of each part is free.
pub record Layout (raw : Bytes) (n : BNode) : Type 0 where
  pub free_ptrs : Bytes
  pub free_offsets : Bytes
  pub free_kvs : Bytes
  pub whole :
      raw
      ≡ join (
          pieces n.btype n.nkeys
            (ptrs n.entries ++ free_ptrs)
            (offsets 0 n.entries ++ free_offsets)
            (kvs n.entries ++ free_kvs))
  pub ptrs_long : length n.entries * 8 + length free_ptrs ≡ n.nkeys * 8
  pub offsets_long : length n.entries * 2 + length free_offsets ≡ n.nkeys * 2
  pub type_small : n.btype < 2 ^ 16
  pub count_small : n.nkeys < 2 ^ 16
  pub data_small : offset n.entries < 2 ^ 16

pub length-ptrs : (es : List Entry) → length (ptrs es) ≡ length es * 8
unfolding ptrs
length-ptrs [] = refl
length-ptrs (e ∷ es) =
    omega
      (arith, length-append (le_bytes 8 e.ptr) (ptrs es), length-le_bytes 8 e.ptr, length-ptrs es)

pub length-offsets : (start : ℕ) (es : List Entry) → length (offsets start es) ≡ length es * 2
unfolding offsets
length-offsets start [] = refl
length-offsets start (e ∷ es) = omega (
  arith,
  length-append (le_bytes 2 (start + kv_size e)) (offsets (start + kv_size e) es),
  length-le_bytes 2 (start + kv_size e),
  length-offsets (start + kv_size e) es,
)

length-kv : (e : Entry) → length (kv e) ≡ kv_size e
unfolding le_bytes
length-kv e = omega (arith, length-append e.key e.val)

pub length-kvs : (es : List Entry) → length (kvs es) ≡ offset es
unfolding kvs offset
length-kvs [] = refl
length-kvs (e ∷ es) = omega (arith, length-append (kv e) (kvs es), length-kv e, length-kvs es)

-- Each part from an entry on.
pub ptrs-split :
    (es : List Entry) (i : ℕ) (e : Entry)
    → get_elem? es i ≡ some e
    → ptrs es ≡ ptrs (take i es) ++ (le_bytes 8 e.ptr ++ ptrs (drop (suc i) es))
unfolding ptrs
ptrs-split [] i e at = cc
ptrs-split (f ∷ es) zero e at = let same : f ≡ e = cc in ap (λ g. le_bytes 8 g.ptr ++ ptrs es) same
ptrs-split (f ∷ es) (suc i) e at =
    ap (λ l. le_bytes 8 f.ptr ++ l) (ptrs-split es i e at)
    ∙ sym (
        append_assoc (le_bytes 8 f.ptr) (ptrs (take i es))
          (le_bytes 8 e.ptr ++ ptrs (drop (suc i) es)))

pub kvs-split :
    (es : List Entry) (i : ℕ) (e : Entry)
    → get_elem? es i ≡ some e
    → kvs es ≡ kvs (take i es) ++ (kv e ++ kvs (drop (suc i) es))
unfolding kvs
kvs-split [] i e at = cc
kvs-split (f ∷ es) zero e at = let same : f ≡ e = cc in ap (λ g. kv g ++ kvs es) same
kvs-split (f ∷ es) (suc i) e at =
    ap (λ l. kv f ++ l) (kvs-split es i e at)
    ∙ sym (append_assoc (kv f) (kvs (take i es)) (kv e ++ kvs (drop (suc i) es)))

offsets-split :
    (start : ℕ) (es : List Entry) (i : ℕ) (e : Entry)
    → get_elem? es i ≡ some e
    → (later : Bytes) × (offsets start es
        ≡ offsets start (take i es) ++ (le_bytes 2 (start + offset (take (suc i) es)) ++ later))
unfolding offsets offset
offsets-split start [] i e at = cc
offsets-split start (f ∷ es) zero e at =
    let ends : start + kv_size f ≡ start + (kv_size f + 0) = omega arith in
    (offsets (start + kv_size f) es, ap (λ v. le_bytes 2 v ++ offsets (start + kv_size f) es) ends)
offsets-split start (f ∷ es) (suc i) e at =
    let (later, split) = offsets-split (start + kv_size f) es i e at in
    let ends : (start + kv_size f) + offset (take (suc i) es)
        ≡ start + (kv_size f + offset (take (suc i) es)) =
      omega arith in
    (
      later,
      ap (λ l. le_bytes 2 (start + kv_size f) ++ l) split
          ∙ sym (
              append_assoc (le_bytes 2 (start + kv_size f))
                (offsets (start + kv_size f) (take i es))
                (le_bytes 2 ((start + kv_size f) + offset (take (suc i) es)) ++ later))
          ∙ ap
              (λ v.
                (le_bytes 2 (start + kv_size f) ++ offsets (start + kv_size f) (take i es))
                ++ (le_bytes 2 v ++ later))
              ends,
    )

pub offset-take : (es : List Entry) (i : ℕ) → offset (take i es) ≤ offset es
unfolding offset
offset-take [] zero = omega arith
offset-take [] (suc i) = omega arith
offset-take (e ∷ es) zero = omega arith
offset-take (e ∷ es) (suc i) = omega (arith, offset-take es i)

-- Free room behind a part.
pub before_room : (xs w ys room : Bytes) → (xs ++ (w ++ ys)) ++ room ≡ xs ++ (w ++ (ys ++ room))
before_room xs w ys room =
    append_assoc xs (w ++ ys) room ∙ ap (λ l. xs ++ l) (append_assoc w ys room)

pub nkeys-pieces :
    (type count : ℕ) (ps os ds : Bytes)
    → count < 2 ^ 16
    → nkeys (join (pieces type count ps os ds)) ≡ count
unfolding le_bytes
nkeys-pieces type count ps os ds small =
    read_2 (le_bytes 2 type ∷ []) [] [] (ps ∷ os ∷ ds ∷ []) count 2 (omega arith) small

pub get_offset-pieces :
    (type count : ℕ) (ps room ds : Bytes) (es : List Entry) (i : ℕ)
    → count < 2 ^ 16
    → length ps ≡ count * 8
    → offset es < 2 ^ 16
    → i ≤ length es
    → get_offset (join (pieces type count ps (offsets 0 es ++ room) ds)) i ≡ offset (take i es)
unfolding offset
get_offset-pieces type count ps room ds es zero small long bounded within = refl
get_offset-pieces type count ps room ds es (suc i) small long bounded within =
    let (e, at) = get_elem?-some es i (omega arith) in
    let (later, split) = offsets-split 0 es i e at in
    let v = 0 + offset (take (suc i) es) in
    let os =
      ap (λ l. l ++ room) split ∙ before_room (offsets 0 (take i es)) (le_bytes 2 v) later room in
    rw (nkeys-pieces type count ps (offsets 0 es ++ room) ds small, os)
      (read_2 (le_bytes 2 type ∷ le_bytes 2 count ∷ ps ∷ []) (offsets 0 (take i es)) (later ++ room)
          (ds ∷ []) v (4 + count * 8 + i * 2)
          (omega (
            arith,
            length-le_bytes 2 type,
            length-le_bytes 2 count,
            long,
            length-offsets 0 (take i es),
            length-take i es,
          ))
          (omega (arith, offset-take es (suc i)))
        ∙ omega arith)
