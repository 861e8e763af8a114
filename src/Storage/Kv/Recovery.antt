-- ===== src/Storage/Kv/Recovery.antt =====
-- The meta page holds the state that it was saved from, and what a commit that stops leaves in the file.
use sqldb.Base.{
  ℕ, ◌+◌, ◌^◌, ◌<◌, ◌≤◌, ◌≡◌, refl, true, false, [], ◌++◌, length, length-append, take, ltb, ◌==◌,
  Bytes, text, bytes_eq, ok, ◌>>◌, Result-cases, inl, inr, arith, subst, Stop, stop, thrown,
  runtime_error, false, Result,
}
use sqldb.Storage.Kv.{
  Kv, Kvtx, Meta, Writes, commit, publish, le_bytes, le_read, write_u64, read_u64, parse_meta,
  save_meta, meta_valid, meta_data_size, read_root, load_meta,
}

abbrev pub Fits64 : ℕ → Type 0
Fits64 v = v < 2 ^ 64

-- A number below 2^64 is read back.
pub read_u64-write_u64 : (v : ℕ) (rest : Bytes) → Fits64 v → read_u64 (write_u64 v ++ rest) ≡ v
unfolding le_bytes le_read
read_u64-write_u64 v rest h = omega arith

-- Every field of the state is a 64-bit number.
pub record FitsMeta (kv : Kv) : Type 0 where
  pub root : Fits64 kv.root
  pub flushed : Fits64 kv.flushed
  pub head_page : Fits64 kv.free.head_page
  pub head_seq : Fits64 kv.free.head_seq
  pub tail_page : Fits64 kv.free.tail_page
  pub tail_seq : Fits64 kv.free.tail_seq
  pub version : Fits64 kv.version

abbrev pub meta_of : Kv → Meta
meta_of kv = record {
  root = kv.root;
  flushed = kv.flushed;
  free_state = kv.free;
  version = kv.version;
}

fields : (kv : Kv) → FitsMeta kv → parse_meta (save_meta kv) ≡ meta_of kv
unfolding parse_meta save_meta le_bytes le_read
fields kv h =
    rw
      (
        read_u64-write_u64 kv.root [] h.root,
        read_u64-write_u64 kv.flushed [] h.flushed,
        read_u64-write_u64 kv.free.head_page [] h.head_page,
        read_u64-write_u64 kv.free.head_seq [] h.head_seq,
        read_u64-write_u64 kv.free.tail_page [] h.tail_page,
        read_u64-write_u64 kv.free.tail_seq [] h.tail_seq,
        read_u64-write_u64 kv.version [] h.version,
      )
      refl

layout :
    (kv : Kv) (rest : Bytes)
    → (length (save_meta kv ++ rest) ≡ meta_data_size + length rest)
      × (take meta_data_size (save_meta kv ++ rest) ≡ save_meta kv)
      × (bytes_eq (take 2 (save_meta kv)) (text "DB") ≡ true)
unfolding save_meta le_bytes bytes_eq
layout kv rest = (length-append (save_meta kv) rest, refl, refl)

-- A file that starts with the meta page of a valid state is opened with that state.
pub read_root-save_meta :
    (kv k : Kv) (rest : Bytes)
    → FitsMeta kv
    → meta_valid (meta_of kv) ≡ true
    → read_root (save_meta kv ++ rest) k ≡ ok (load_meta k (meta_of kv))
unfolding read_root
read_root-save_meta kv k rest h valid =
    let (count, header, signature) = layout kv rest in
    let some_bytes : (length (save_meta kv ++ rest) == 0) ≡ false = ground (arith, count) in
    let enough : ltb (length (save_meta kv ++ rest)) meta_data_size ≡ false =
      ground (arith, count) in
    rw (some_bytes, enough, header, signature, fields kv h, valid) refl

-- A file that is long enough, without the signature.
unsigned_refused :
    (written : Bytes) (k : Kv)
    → meta_data_size ≤ length written
    → bytes_eq (take 2 (take meta_data_size written)) (text "DB") ≡ false
    → read_root written k
      ≡ stop (thrown (runtime_error (text "KV: not a valid db file (bad signature)")))
unfolding read_root
unsigned_refused written k long unsigned =
    let some_bytes : (length written == 0) ≡ false = ground (arith, long) in
    let enough : ltb (length written) meta_data_size ≡ false = ground (arith, long) in
    rw (some_bytes, enough, unsigned) refl

-- write_pages puts the pages of a new file behind page 0, which keeps no signature. Where the first commit
-- stops before its second fsync, has written pages, and has not changed the file by update_root, read_root
-- refuses the file.
pub commit-read_root_new :
    (w : Writes) (tx : Kvtx) (kv k : Kv) (why : Stop)
    → (tx.root == kv.root) ≡ false
    → meta_data_size ≤ length w.written
    → bytes_eq (take 2 (take meta_data_size w.written)) (text "DB") ≡ false
    → ((w.write_pages >> w.sync_pages) >> w.update_root) ≡ stop why
    → w.landed ≡ false
    → ((commit w tx kv []).2 ≡ stop why)
      × (read_root (commit w tx kv []).1 k
          ≡ stop (thrown (runtime_error (text "KV: not a valid db file (bad signature)"))))
unfolding commit publish
commit-read_root_new w tx kv k why moved long unsigned stopped lost =
    let refused = unsigned_refused w.written k long unsigned in
    elim (Result-cases (w.write_pages >> w.sync_pages)) [
      | inr (reason, e) ↦
          let same : Result.stop reason ≡ stop why =
            subst (λ m. (m >> w.update_root) ≡ stop why) e stopped in
          rw (moved, e) (same, refused)
      | inl (u, e) ↦
          let last : w.update_root ≡ stop why =
            subst (λ m. (m >> w.update_root) ≡ stop why) e stopped in
          rw (moved, e, last, lost) (refl, refused)
    ]
