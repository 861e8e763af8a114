-- ===== src/Storage/Kv.antt =====
-- KV and its transactions: include/storage/kv.h and src/storage/kv.cpp. The tree of a transaction is
-- known by its root here, and a page of the free list by its fields, as in Storage/FreeList.
pub mod Recovery
pub mod Begin
pub mod Reached
pub mod Tx
pub mod Api
pub mod Mapping
pub mod WritePages
mod Tests
use sqldb.Base.{
  ℕ, zero, suc, ◌+◌, ◌-◌, ◌*◌, ◌/◌, ◌%◌, ◌^◌, Bool, true, false, not, ◌&&◌, List, [], ◌∷◌, ◌++◌,
  Option, none, some, length, take, drop, replicate, ltb, leb, ◌==◌, if◌then◌else◌, ℤ, Bytes, text,
  bytes_eq, Result, ok, stop, thrown, runtime_error, ◌>>=◌, ◌>>◌, ensure,
}
use sqldb.Storage.FreeList.{FreeList, FreeListState, LNode, version_before, update, zeroed}
use sqldb.Storage.ReaderHeap
use sqldb.Storage.ReaderHeap.{ReaderHeap, min_reader}

abbrev pub meta_sig_size : ℕ
meta_sig_size = 16

abbrev pub meta_data_size : ℕ
meta_data_size = meta_sig_size + 7 * 8

-- The number of a field, from 0 on in the order of MetaField.
abbrev pub meta_offset : ℕ → ℕ
meta_offset field = meta_sig_size + field * 8

-- The bytes of a number in memory, the lowest one first.
unfoldable pub le_bytes : ℕ → ℕ → Bytes
le_bytes zero v = []
le_bytes (suc n) v = v % 256 ∷ le_bytes n (v / 256)

unfoldable pub le_read : ℕ → Bytes → ℕ
le_read zero bs = 0
le_read (suc n) [] = 0
le_read (suc n) (b ∷ bs) = b + 256 * le_read n bs

abbrev pub write_u64 : ℕ → Bytes
write_u64 v = le_bytes 8 v

abbrev pub read_u64 : Bytes → ℕ
read_u64 bs = le_read 8 bs

pub record Meta : Type 0 where
  pub root : ℕ
  pub flushed : ℕ
  pub free_state : FreeListState
  pub version : ℕ

-- KV, without its file and its mappings.
pub record Kv : Type 0 where
  pub root : ℕ
  pub version : ℕ
  pub readers : ReaderHeap
  pub flushed : ℕ
  pub free : FreeListState
  pub durable_version : ℕ

-- KVTX: the version and the root of its tree, the pages that it appended, and its free list.
pub record Kvtx : Type 0 where
  pub version : ℕ
  pub root : ℕ
  pub page_append : ℕ
  pub free : FreeList

unfoldable pub parse_meta : Bytes → Meta
parse_meta page = record {
  root = read_u64 (drop (meta_offset 0) page);
  flushed = read_u64 (drop (meta_offset 1) page);
  free_state = record {
    head_page = read_u64 (drop (meta_offset 2) page);
    head_seq = read_u64 (drop (meta_offset 3) page);
    tail_page = read_u64 (drop (meta_offset 4) page);
    tail_seq = read_u64 (drop (meta_offset 5) page);
  };
  version = read_u64 (drop (meta_offset 6) page);
}

unfoldable pub save_meta : Kv → Bytes
save_meta kv =
    text "DB"
    ++ (replicate 14 0
        ++ (write_u64 kv.root
            ++ (write_u64 kv.flushed
                ++ (write_u64 kv.free.head_page
                    ++ (write_u64 kv.free.head_seq
                        ++ (write_u64 kv.free.tail_page
                            ++ (write_u64 kv.free.tail_seq ++ write_u64 kv.version)))))))

unfoldable pub meta_valid : Meta → Bool
meta_valid meta =
    not (meta.version == 0)
    && (leb 2 meta.flushed
        && (ltb meta.root meta.flushed
            && (not (meta.free_state.head_page == 0)
                && (ltb meta.free_state.head_page meta.flushed
                    && (not (meta.free_state.tail_page == 0)
                        && (ltb meta.free_state.tail_page meta.flushed
                            && leb meta.free_state.head_seq meta.free_state.tail_seq))))))

-- The state that read_root takes from a meta page, and that of a file without one.
abbrev pub load_meta : Kv → Meta → Kv
load_meta kv meta = record kv {
  root = meta.root;
  version = meta.version;
  durable_version = meta.version;
  flushed = meta.flushed;
  free = meta.free_state;
}

abbrev pub empty_file : Kv → Kv
empty_file kv = record kv {
  root = 0;
  version = 0;
  durable_version = 0;
  flushed = 2;
  free = record { head_page = 1; head_seq = 0; tail_page = 1; tail_seq = 0 };
}

-- read_root, on the bytes of the file.
unfoldable pub read_root : Bytes → Kv → Result Kv
read_root file kv =
    let header = take meta_data_size file in
    let loaded = (do
      ensure (not (ltb (length file) meta_data_size))
          (thrown (runtime_error (text "KV: file too small to contain a meta page")))
      ensure (bytes_eq (take 2 header) (text "DB"))
          (thrown (runtime_error (text "KV: not a valid db file (bad signature)")))
      ensure (meta_valid (parse_meta header))
          (thrown (runtime_error (text "KV: corrupt meta page")))
      ok (load_meta kv (parse_meta header))) in
    if length file == 0 then ok (empty_file kv) else loaded

-- snapshot and begin_read: the reader takes the version, and the root with it, and enters the heap.
unfoldable pub begin_read : ℕ → Kv → Kv
begin_read reader kv =
    let readers = kv.readers in
    let stamped = record readers {
      version = λ r. if r == reader then kv.version else readers.version r;
    } in
    record kv { readers = ReaderHeap.push stamped reader }

unfoldable pub end_read : ℕ → Kv → Result Kv
end_read reader kv = do
  r ← ReaderHeap.remove kv.readers (kv.readers.heap_index reader)
  ok (record kv { readers = r.1 })

-- The version before which freed pages can be used again.
abbrev pub reusable_before : Kv → Option ℕ → ℕ
reusable_before kv none = kv.durable_version
reusable_before kv (some oldest) =
    if version_before (kv.readers.version oldest) kv.durable_version
    then kv.readers.version oldest
    else kv.durable_version

-- begin, with the pages of the file. In a new file page 1 is an empty node.
unfoldable pub begin : (ℕ → LNode) → Kv → Kvtx
begin pages kv = record {
  version = kv.version;
  root = kv.root;
  page_append = 0;
  free = record {
    state = kv.free;
    version = kv.version;
    min_reader = reusable_before kv (min_reader kv.readers);
    pages = if kv.version == 0 then update pages 1 zeroed else pages;
    end_page = kv.flushed;
  };
}

-- How the writes of a commit end: write_pages, the first fsync, update_root and the second fsync; the file
-- behind write_pages, be it through or cut short; and whether an update_root that failed has changed the
-- file all the same.
pub record Writes : Type 0 where
  pub write_pages : Result (Unit {0})
  pub sync_pages : Result (Unit {0})
  pub update_root : Result (Unit {0})
  pub sync_meta : Result (Unit {0})
  pub written : Bytes
  pub landed : Bool

-- The file with the meta page written over its start, by one pwrite.
abbrev pub with_meta : Kv → Bytes → Bytes
with_meta kv file = save_meta kv ++ drop meta_data_size file

-- commit behind its first phase: the new version is there, whatever the writes of the second phase do.
unfoldable pub publish : Writes → Kv → Bytes → Kv × Bytes × Result (Unit {0})
publish w kv file = elim w.update_root [
  | stop why ↦ (kv, if w.landed then with_meta kv file else file, stop why)
  | ok done ↦ elim w.sync_meta [
    | stop why ↦ (kv, with_meta kv file, stop why)
    | ok done ↦ (record kv { durable_version = kv.version }, with_meta kv file, ok tt)
  ]
]

abbrev pub next_version : Kv → Kvtx → Kv
next_version kv tx = record kv {
  root = tx.root;
  version = (kv.version + 1) % 2 ^ 64;
  flushed = kv.flushed + tx.page_append;
  free = tx.free.state;
}

-- commit: the state, the file and what the call returns.
unfoldable pub commit : Writes → Kvtx → Kv → Bytes → Kv × Bytes × Result (Unit {0})
commit w tx kv file =
    let phases = elim (w.write_pages >> w.sync_pages) as (λ _. Kv × Bytes × Result (Unit {0})) [
      | stop why ↦ (kv, w.written, stop why)
      | ok done ↦ publish w (next_version kv tx) w.written
    ] in
    if tx.root == kv.root then (kv, file, ok tt) else phases
