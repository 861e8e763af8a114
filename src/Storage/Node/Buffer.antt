-- ===== src/Storage/Node/Buffer.antt =====
-- The bytes of a node: the accessors of BNode in src/storage/btree.cpp on its buffer, and encode and decode.
-- A buffer is a list of bytes, and a machine word in it has its lowest byte first.
use sqldb.Base.{
  ℕ, zero, suc, ◌+◌, ◌-◌, ◌*◌, ◌%◌, ◌^◌, ◌++◌, length, take, drop, replicate, leb, ◌==◌, Bytes,
  Result, ok, asserted, ◌>>◌, ensure,
}
use sqldb.Storage.Kv.{le_bytes, le_read}
use sqldb.Storage.Node.{btree_page_size, btree_max_key_size, btree_max_val_size}

-- memcpy into the buffer, and out of it.
unfoldable pub poke : Bytes → ℕ → Bytes → Bytes
poke raw pos bs = take pos raw ++ (bs ++ drop (pos + length bs) raw)

unfoldable pub peek : Bytes → ℕ → ℕ → Bytes
peek raw pos n = take n (drop pos raw)

unfoldable pub write_word : ℕ → Bytes → ℕ → ℕ → Bytes
write_word n raw pos v = poke raw pos (le_bytes n v)

unfoldable pub read_word : ℕ → Bytes → ℕ → ℕ
read_word n raw pos = le_read n (drop pos raw)

abbrev pub btype : Bytes → ℕ
btype raw = read_word 2 raw 0

abbrev pub nkeys : Bytes → ℕ
nkeys raw = read_word 2 raw 2

abbrev pub set_header : ℕ → ℕ → Bytes → Bytes
set_header type count raw = write_word 2 (write_word 2 raw 0 type) 2 count

abbrev pub offsets_offset : Bytes → ℕ
offsets_offset raw = 4 + nkeys raw * 8

abbrev pub kv_base_offset : Bytes → ℕ
kv_base_offset raw = offsets_offset raw + nkeys raw * 2

abbrev pub get_ptr : Bytes → ℕ → ℕ
get_ptr raw idx = read_word 8 raw (4 + idx * 8)

abbrev pub set_ptr : ℕ → ℕ → Bytes → Bytes
set_ptr idx ptr raw = write_word 8 raw (4 + idx * 8) ptr

abbrev pub get_offset : Bytes → ℕ → ℕ
get_offset raw zero = 0
get_offset raw (suc i) = read_word 2 raw (offsets_offset raw + i * 2)

abbrev pub set_offset : ℕ → ℕ → Bytes → Bytes
set_offset idx offset raw = write_word 2 raw (offsets_offset raw + (idx - 1) * 2) offset

abbrev pub kv_pos : Bytes → ℕ → ℕ
kv_pos raw idx = kv_base_offset raw + get_offset raw idx

unfoldable pub get_key : Bytes → ℕ → Bytes
get_key raw idx = let pos = kv_pos raw idx in peek raw (pos + 4) (read_word 2 raw pos)

unfoldable pub get_val : Bytes → ℕ → Bytes
get_val raw idx =
    let pos = kv_pos raw idx in peek raw (pos + 4 + read_word 2 raw pos) (read_word 2 raw (pos + 2))

abbrev pub nbytes : Bytes → ℕ
nbytes raw = kv_pos raw (nkeys raw) % 2 ^ 16

-- The sizes and the data of an entry, at a position.
unfoldable pub put_kv : ℕ → Bytes → Bytes → Bytes → Bytes
put_kv pos key val raw =
    poke
      (poke (write_word 2 (write_word 2 raw pos (length key)) (pos + 2) (length val)) (pos + 4) key)
      (pos + 4 + length key) val

unfoldable pub node_append_kv : ℕ → ℕ → Bytes → Bytes → Bytes → Result Bytes
node_append_kv idx ptr key val old = do
  let raw = set_ptr idx ptr old
  let pos = kv_pos raw idx
  ensure (leb (length key) btree_max_key_size) asserted
  ensure (leb (length val) btree_max_val_size) asserted
  ensure (leb (pos + 4 + length key + length val) (length raw)) asserted
  let filled = put_kv pos key val raw
  ok (set_offset (idx + 1) ((get_offset filled idx + 4 + length key + length val) % 2 ^ 16) filled)

-- The used part of a node, in a page.
unfoldable pub encode : Bytes → Result Bytes
encode raw = do
  ensure (leb (nbytes raw) btree_page_size) asserted
  ok (take (nbytes raw) raw ++ replicate (btree_page_size - nbytes raw) 0)

unfoldable pub decode : Bytes → Result Bytes
decode page = ensure (length page == btree_page_size) asserted >> ok page
