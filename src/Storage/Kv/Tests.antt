-- ===== src/Storage/Kv/Tests.antt =====
-- A store at concrete states.
use sqldb.Base.{
  Stop, replicate, bytes_eq, false, ◌*◌, Bytes, List, some, ap, sym, text, thrown, runtime_error,
  stop, ℕ, ◌<◌, ◌≡◌, refl, true, [], ◌∷◌, ◌++◌, ok, ◌⊎◌, if◌then◌else◌, ◌==◌, negsuc, pos, arith,
}
use sqldb.Storage.FreeList.{FreeList, LNode, zeroed}
use sqldb.Storage.ReaderHeap.{ReaderHeap, min_reader}
use sqldb.Storage.Node.{btree_page_size}
use sqldb.Storage.Kv.Mapping.{
  Mapping, IsMapped, extend_mmap, page_get_mapped, page_get_mapped-extend_mmap,
}
use sqldb.Storage.Kv.WritePages.{
  Disk, Updates, page_behind, updated, FallsShort, write_pages, write_pages-updated,
}
use sqldb.Storage.Kv.{
  empty_file, Kv, Kvtx, Writes, begin, begin_read, commit, save_meta, read_root, meta_valid,
  load_meta,
}
use sqldb.Storage.Kv.Recovery.{FitsMeta, meta_of, read_root-save_meta, commit-read_root_new}
use sqldb.Storage.Kv.Begin.{Current}
use sqldb.Storage.Kv.Reached.{opened, reader_begins, Reached-Current}

abbrev no_readers : ReaderHeap
no_readers = record { items = []; version = λ r. 0; heap_index = λ r. negsuc 0 }

-- Two commits, nine pages, one of them free since version 1.
abbrev store : Kv
store = record {
  root = 5;
  version = 2;
  readers = no_readers;
  flushed = 9;
  free = record { head_page = 1; head_seq = 0; tail_page = 1; tail_seq = 1 };
  durable_version = 2;
}

store-FitsMeta : FitsMeta store
store-FitsMeta = record {
  root = omega arith;
  flushed = omega arith;
  head_page = omega arith;
  head_seq = omega arith;
  tail_page = omega arith;
  tail_seq = omega arith;
  version = omega arith;
}

store-meta_valid : meta_valid (meta_of store) ≡ true
unfolding meta_valid
store-meta_valid = refl

store_file : read_root (save_meta store ++ []) store ≡ ok (load_meta store (meta_of store))
store_file = read_root-save_meta store store [] store-FitsMeta store-meta_valid

-- A transaction that appended a page and made it the root, and writes that succeed.
abbrev writer : Kvtx
writer = record {
  version = 2;
  root = 9;
  page_append = 1;
  free = record {
    state = store.free;
    version = 2;
    min_reader = 2;
    pages = λ p. zeroed;
    end_page = 10;
  };
}

abbrev writes : Writes
writes = record {
  write_pages = ok tt;
  sync_pages = ok tt;
  update_root = ok tt;
  sync_meta = ok tt;
  written = save_meta store ++ 1 ∷ 2 ∷ [];
  landed = true;
}

-- A new file, and a first commit that writes pages behind an empty page 0 and then fails its fsync.
abbrev new_store : Kv
new_store = empty_file store

abbrev sync_failed : Stop
sync_failed = thrown (runtime_error (text "KV: fsync failed"))

abbrev unsynced : Writes
unsynced = record writes { sync_pages = stop sync_failed; written = replicate 80 0; landed = false }

lost_after_failed_sync :
    ((commit unsynced writer new_store []).2 ≡ stop sync_failed)
    × (read_root (commit unsynced writer new_store []).1 new_store
        ≡ stop (thrown (runtime_error (text "KV: not a valid db file (bad signature)"))))
unfolding bytes_eq
lost_after_failed_sync =
    commit-read_root_new unsynced writer new_store new_store sync_failed refl (omega arith) refl
      refl refl

-- A reader of version 2, and page 7 freed by version 1.
abbrev read_store : Kv
read_store = record store {
  readers = record {
    items = 3 ∷ [];
    version = λ r. if r == 3 then 2 else 0;
    heap_index = λ r. pos 0;
  };
}

abbrev pages : ℕ → LNode
pages p = record { next = 0; ptr = λ i. 7; node_version = λ i. 1 }

abbrev popped : FreeList
popped = record (begin pages read_store).free {
  state = record { head_page = 1; head_seq = 1; tail_page = 1; tail_seq = 1 };
}

Reached-Current_example : Current (begin_read 3 (load_meta store (meta_of store)))
unfolding begin_read
Reached-Current_example =
    Reached-Current (begin_read 3 (load_meta store (meta_of store)))
      (reader_begins (load_meta store (meta_of store)) 3
        (opened (save_meta store ++ []) store (load_meta store (meta_of store)) refl (λ r. refl)
          store_file)
        (λ i. cc))
      (omega arith)

-- A file of pages, and pages 3, 4 and 7 to be written.
some_is :
    (f : ℕ → Bytes) (first : ℕ) (pages : List Bytes) (g : ℕ → Bytes)
    → some (λ p. page_behind first pages p (f p)) ≡ some g
    → (λ p. page_behind first pages p (f p)) ≡ g
some_is f first pages g e = cc

abbrev disk : Disk (ℕ → Bytes)
disk = record {
  read = λ f p. f p;
  pwritev = λ first pages f. some (λ p. page_behind first pages p (f p));
  pwritev-read = λ first pages f g e p. ap (λ h. h p) (sym (some_is f first pages g e));
}

abbrev buffered : Updates
buffered = (3, 1 ∷ []) ∷ (4, 2 ∷ []) ∷ (7, 3 ∷ []) ∷ []

abbrev empty_pages : ℕ → Bytes
empty_pages p = []

write_pages-updated_example :
    ((g : ℕ → Bytes) × (write_pages disk buffered empty_pages ≡ ok g)
      × ((p : ℕ) → g p ≡ updated buffered p (empty_pages p)))
    ⊎ (FallsShort disk buffered
        × (write_pages disk buffered empty_pages
            ≡ stop (thrown (runtime_error (text "KV: pwritev failed")))))
write_pages-updated_example =
    write_pages-updated disk buffered empty_pages (omega arith, (omega arith, (omega arith, tt)))

abbrev unmapped : Mapping
unmapped = record { chunks = []; mmap_total = 0 }

unmapped-IsMapped : IsMapped unmapped
unmapped-IsMapped = record { contiguous = refl; whole = (0, refl) }

page_get_mapped-extend_mmap_example :
    ((n : Mapping) × (extend_mmap true 12288 unmapped ≡ ok n)
      × IsMapped n
      × (btree_page_size * 2 < 12288 → page_get_mapped n 2 ≡ ok (btree_page_size * 2)))
    × (0 < 12288
        → extend_mmap false 12288 unmapped ≡ stop (thrown (runtime_error (text "KV: mmap failed"))))
page_get_mapped-extend_mmap_example =
    page_get_mapped-extend_mmap 12288 2 unmapped (omega arith) (omega arith) unmapped-IsMapped
