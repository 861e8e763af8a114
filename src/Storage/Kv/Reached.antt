-- ===== src/Storage/Kv/Reached.antt =====
-- The states that a KV goes through while readers come and go and transactions commit.
use sqldb.Base.{
  ℕ, zero, suc, ◌+◌, ◌-◌, ◌/◌, ◌%◌, ◌^◌, ◌<◌, ◌≤◌, ◌≡◌, ◌≢◌, refl, sym, ap, ◌∙◌, subst, false, [],
  some, get_elem?, length, Bytes, ℤ, pos, negsuc, ◌==◌, if◌then◌else◌, take, ◌⊎◌, ok, stop,
  asserted, ◌>>◌, Bool-cases, Result-cases, inl, inr, arith,
}
use sqldb.Storage.ReaderHeap.{
  ReaderHeap, set_index, less, swap, up_loop, up, down_loop, down, sift, push, remove, remove_at,
  older_kid,
}
use sqldb.Storage.ReaderHeap.Order.{Ordered, push-Ordered}
use sqldb.Storage.ReaderHeap.Removal.{remove-Ordered}
use sqldb.Storage.Kv.{
  Kv, Kvtx, Writes, read_root, begin_read, end_read, commit, publish, next_version,
}
use sqldb.Storage.Kv.Begin.{Current}

-- The heap's operations move readers, and leave their versions.
swap-version : (h : ReaderHeap) (i j : ℕ) → (swap h i j).version ≡ h.version
unfolding swap set_index
swap-version h i j = ground arith

up_loop-version : (fuel : ℕ) (h : ReaderHeap) (j : ℕ) → (up_loop fuel h j).version ≡ h.version
unfolding up_loop
up_loop-version zero h j = refl
up_loop-version (suc fuel) h j = ground (
  arith,
  up_loop-version fuel (swap h ((j - 1) / 2) j) ((j - 1) / 2),
  swap-version h ((j - 1) / 2) j,
)

down_loop-version : (fuel : ℕ) (h : ReaderHeap) (i : ℕ) → (down_loop fuel h i).0.version ≡ h.version
unfolding down_loop
down_loop-version zero h i = refl
down_loop-version (suc fuel) h i = ground (
  arith,
  down_loop-version fuel (swap h i (older_kid h i)) (older_kid h i),
  swap-version h i (older_kid h i),
)

push-version : (h : ReaderHeap) (r : ℕ) → (push h r).version ≡ h.version
unfolding push up set_index
push-version h r = up_loop-version (length h.items) _ (length h.items)

sift-version : (h : ReaderHeap) (i : ℕ) → (sift h i).version ≡ h.version
unfolding sift up down
sift-version h i = ground (
  arith,
  down_loop-version (length h.items) h i,
  up_loop-version i (down_loop (length h.items) h i).0 i,
)

remove-version : (h k : ReaderHeap) (i r : ℕ) → remove h (pos i) ≡ ok (r, k) → k.version ≡ h.version
unfolding remove remove_at set_index
remove-version h k i r e =
    let n = length h.items in
    let last = swap h i (n - 1) in
    let popped : ReaderHeap = record last { items = take (n - 1) last.items } in
    ground (arith, e, sift-version popped i, swap-version h i (n - 1))

-- A state that is entered by opening a file, with no reader yet, and left by the calls of readers and
-- writers; fewer than 2^63 commits are made.
pub data Reached : Kv → Type 0 where
  opened :
      (file : Bytes) (k kv : Kv)
      → k.readers.items ≡ []
      → ((r : ℕ) → k.readers.version r ≡ 0)
      → read_root file k ≡ ok kv
      → Reached kv
  reader_begins :
      (kv : Kv) (reader : ℕ)
      → Reached kv
      → ((i : ℕ) → get_elem? kv.readers.items i ≢ some reader)
      → Reached (begin_read reader kv)
  reader_ends : (kv k : Kv) (reader : ℕ) → Reached kv → end_read reader kv ≡ ok k → Reached k
  writer_commits :
      (w : Writes) (tx : Kvtx) (kv : Kv) (file : Bytes)
      → Reached kv
      → kv.version < 2 ^ 63
      → Reached (commit w tx kv file).0

-- What Current says, but for the bound.
record Sound (kv : Kv) : Type 0 where
  ordered : Ordered kv.readers
  seen : (r : ℕ) → kv.readers.version r ≤ kv.version
  durable : kv.durable_version ≤ kv.version

opened-Sound :
    (file : Bytes) (k kv : Kv)
    → k.readers.items ≡ []
    → ((r : ℕ) → k.readers.version r ≡ 0)
    → read_root file k ≡ ok kv
    → Sound kv
unfolding read_root less
opened-Sound file k kv none_open unstamped e =
    let kept : (kv.readers ≡ k.readers) × (kv.durable_version ≡ kv.version) = ground (arith, e) in
    subst (λ h. (h.version ≡ k.readers.version) → Sound kv) (sym kept.0)
      (λ g. record {
        ordered = λ i at.
            subst (λ h. less h i ((i - 1) / 2) ≡ false) (sym kept.0) (ground (arith, none_open));
        seen = λ r. subst (λ h. h.version r ≤ kv.version) (sym kept.0) (omega (arith, unstamped r));
        durable = omega (arith, kept.1);
      })
      (ap (λ h. h.version) kept.0)

-- A stamp on a reader outside the heap changes no comparison.
less_stamped :
    (h : ReaderHeap) (reader v i j : ℕ)
    → ((n : ℕ) → get_elem? h.items n ≢ some reader)
    → less (record h { version = λ r. if r == reader then v else h.version r }) i j ≡ less h i j
unfolding less
less_stamped h reader v i j new = ground (arith, new i, new j)

begin_read-Sound :
    (kv : Kv) (reader : ℕ)
    → Sound kv
    → ((i : ℕ) → get_elem? kv.readers.items i ≢ some reader)
    → Sound (begin_read reader kv)
unfolding begin_read
begin_read-Sound kv reader h new =
    let stamped : ReaderHeap = record kv.readers {
      version = λ r. if r == reader then kv.version else kv.readers.version r;
    } in
    record {
      ordered =
          push-Ordered stamped reader (λ i at.
            less_stamped kv.readers reader kv.version i ((i - 1) / 2) new ∙ h.ordered i at);
      seen = λ r.
          subst (λ f. f r ≤ kv.version) (sym (push-version stamped reader))
            (ground (arith, h.seen r));
      durable = h.durable;
    }

remove-negsuc : (h : ReaderHeap) (n : ℕ) → remove h (negsuc n) ≡ stop asserted
unfolding remove
remove-negsuc h n = refl

end_read-Sound : (kv k : Kv) (reader : ℕ) → Sound kv → end_read reader kv ≡ ok k → Sound k
unfolding end_read
end_read-Sound kv k reader h e = leave (kv.readers.heap_index reader) refl
  where
    leave : (at : ℤ) → kv.readers.heap_index reader ≡ at → Sound k
    leave (negsuc n) same =
        absurd (ground (arith, e, ap (remove kv.readers) same, remove-negsuc kv.readers n))
    leave (pos i) same = elim (Result-cases (remove kv.readers (pos i))) [
      | inr (why, f) ↦ absurd (ground (arith, e, ap (remove kv.readers) same, f))
      | inl ((r, g), f) ↦
          let left : record kv { readers = g } ≡ k =
            ground (arith, e, ap (remove kv.readers) same, f) in
          subst Sound left (record {
            ordered = remove-Ordered kv.readers g i r h.ordered f;
            seen = λ x.
                subst (λ v. v x ≤ kv.version) (sym (remove-version kv.readers g i r f)) (h.seen x);
            durable = h.durable;
          })
    ]

-- A commit keeps the state, or takes the new version, which is durable only where both writes are.
commit_states :
    (w : Writes) (tx : Kvtx) (kv : Kv) (file : Bytes)
    → (((commit w tx kv file).0 ≡ kv) ⊎ ((commit w tx kv file).0 ≡ next_version kv tx))
      ⊎ ((commit w tx kv file).0
          ≡ record (next_version kv tx) { durable_version = (next_version kv tx).version })
unfolding commit publish
commit_states w tx kv file = elim (Bool-cases (tx.root == kv.root)) [
  | inl same ↦ rw same (inl (inl refl))
  | inr moved ↦ elim (Result-cases (w.write_pages >> w.sync_pages)) [
    | inr (why, e) ↦ rw (moved, e) (inl (inl refl))
    | inl (u, e) ↦ elim (Result-cases w.update_root) [
      | inr (why, f) ↦ rw (moved, e, f) (inl (inr refl))
      | inl (v, f) ↦ elim (Result-cases w.sync_meta) [
        | inr (why, g) ↦ rw (moved, e, f, g) (inl (inr refl))
        | inl (x, g) ↦ rw (moved, e, f, g) (inr refl)
      ]
    ]
  ]
]

commit-Sound :
    (w : Writes) (tx : Kvtx) (kv : Kv) (file : Bytes)
    → Sound kv
    → kv.version < 2 ^ 63
    → Sound (commit w tx kv file).0
commit-Sound w tx kv file h small =
    let v : (kv.version + 1) % 2 ^ 64 ≡ kv.version + 1 = omega (arith, small) in
    let next : Sound (next_version kv tx) = record {
      ordered = h.ordered;
      seen = λ r. omega (arith, h.seen r, v);
      durable = omega (arith, h.durable, v);
    } in
    elim (commit_states w tx kv file) [
      | inl (inl e) ↦ subst Sound (sym e) h
      | inl (inr e) ↦ subst Sound (sym e) next
      | inr e ↦
          subst Sound (sym e)
            (record { ordered = next.ordered; seen = next.seen; durable = omega arith })
    ]

Reached-Sound : (kv : Kv) → Reached kv → Sound kv
Reached-Sound kv (opened file k _ none_open unstamped e) =
    opened-Sound file k kv none_open unstamped e
Reached-Sound kv (reader_begins k reader before new) =
    begin_read-Sound k reader (Reached-Sound k before) new
Reached-Sound kv (reader_ends k _ reader before e) =
    end_read-Sound k kv reader (Reached-Sound k before) e
Reached-Sound kv (writer_commits w tx k file before small) =
    commit-Sound w tx k file (Reached-Sound k before) small

-- In every state that is reached, and whose version is below 2^63, the readers are in heap order, and
-- neither a reader nor the durable version is ahead of the latest one.
pub Reached-Current : (kv : Kv) → Reached kv → kv.version < 2 ^ 63 → Current kv
Reached-Current kv reached small =
    let h = Reached-Sound kv reached in
    record { ordered = h.ordered; seen = h.seen; durable = h.durable; small = small }
