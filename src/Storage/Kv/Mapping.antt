-- ===== src/Storage/Kv/Mapping.antt =====
-- The mapping of the file: KV::extend_mmap of src/storage/kv.cpp and KVReader::page_get_mapped of
-- src/storage/kv_reader.cpp. The address of a mapping is the place in the file that it starts at, since mmap
-- maps the file from there on, and an argument says whether the system call succeeds.
use sqldb.Base.{
  ℕ, zero, suc, ◌+◌, ◌-◌, ◌*◌, ◌/◌, ◌%◌, ◌^◌, ◌<◌, ◌≤◌, ◌≡◌, refl, sym, ap, subst, ◌∙◌, Bool, true,
  false, List, [], ◌∷◌, ◌++◌, ltb, leb, if◌then◌else◌, text, Result, ok, stop, thrown, out_of_range,
  runtime_error, out_of_fuel, ◌>>=◌, ◌>>◌, ensure, Bool-cases, inl, inr, arith,
}
use sqldb.Storage.Node.{btree_page_size}

pub record MmapChunk : Type 0 where
  pub data_at : ℕ
  pub size : ℕ

-- KV's chunks_ and mmap_total_.
pub record Mapping : Type 0 where
  pub chunks : List MmapChunk
  pub mmap_total : ℕ

abbrev pub min_mmap_size : ℕ
min_mmap_size = 67108864

-- `std::max(mmap_total_, MIN_MMAP_SIZE)`
abbrev pub first_alloc : ℕ → ℕ
first_alloc total = if ltb total min_mmap_size then min_mmap_size else total

-- The loop that doubles the size of the new chunk.
unfoldable pub grow_alloc : ℕ → ℕ → ℕ → ℕ → Result ℕ
grow_alloc zero total alloc size = stop out_of_fuel
grow_alloc (suc fuel) total alloc size =
    let more = grow_alloc fuel total (alloc * 2 % 2 ^ 64) size in
    if ltb ((total + alloc) % 2 ^ 64) size then more else ok alloc

unfoldable pub extend_mmap : Bool → ℕ → Mapping → Result Mapping
extend_mmap mapped size m =
    let extended = (do
      alloc ← grow_alloc (suc size) m.mmap_total (first_alloc m.mmap_total) size
      ensure mapped (thrown (runtime_error (text "KV: mmap failed")))
      ok (record {
        chunks = m.chunks ++ record { data_at = m.mmap_total; size = alloc } ∷ [];
        mmap_total = (m.mmap_total + alloc) % 2 ^ 64;
      })) in
    if leb size m.mmap_total then ok m else extended

-- The loop of page_get_mapped, from the page that the chunk starts at: the place of the page in the file.
unfoldable pub mapped_from : List MmapChunk → ℕ → ℕ → Result ℕ
mapped_from [] start ptr = stop (thrown (out_of_range (text "KVReader: bad ptr")))
mapped_from (chunk ∷ chunks) start ptr =
    let end = start + chunk.size / btree_page_size in
    let later = mapped_from chunks end ptr in
    if ltb ptr end then ok (chunk.data_at + btree_page_size * (ptr - start)) else later

unfoldable pub page_get_mapped : Mapping → ℕ → Result ℕ
page_get_mapped m ptr = mapped_from m.chunks 0 ptr

-- The chunks map whole pages, one behind the other, between two places in the file.
abbrev pub Contiguous : ℕ → List MmapChunk → ℕ → Type 0
Contiguous start [] end = start ≡ end
Contiguous start (chunk ∷ chunks) end =
    (chunk.data_at ≡ start)
    × ((k : ℕ) × (chunk.size ≡ btree_page_size * k))
    × Contiguous (start + chunk.size) chunks end

-- The chunks map the file from its start.
pub record IsMapped (m : Mapping) : Type 0 where
  pub contiguous : Contiguous 0 m.chunks m.mmap_total
  pub whole : (k : ℕ) × (m.mmap_total ≡ btree_page_size * k)

Contiguous-le :
    (chunks : List MmapChunk) (start end : ℕ) → Contiguous start chunks end → start ≤ end
Contiguous-le [] start end same = omega arith
Contiguous-le (chunk ∷ chunks) start end (here, whole, rest) =
    let more = Contiguous-le chunks (start + chunk.size) end rest in omega arith

mapped_from-place :
    (chunks : List MmapChunk) (first ptr end : ℕ)
    → Contiguous (btree_page_size * first) chunks end
    → first ≤ ptr
    → (btree_page_size * ptr < end → mapped_from chunks first ptr ≡ ok (btree_page_size * ptr))
      × (end ≤ btree_page_size * ptr
          → mapped_from chunks first ptr ≡ stop (thrown (out_of_range (text "KVReader: bad ptr"))))
unfolding mapped_from
mapped_from-place [] first ptr end same above = (λ inside. absurd (omega arith), λ beyond. refl)
mapped_from-place (chunk ∷ chunks) first ptr end (here, (k, whole), rest) above =
    let pages : chunk.size / btree_page_size ≡ k = omega arith in
    let next : btree_page_size * first + chunk.size ≡ btree_page_size * (first + k) = omega arith in
    let later = subst (λ b. Contiguous b chunks end) next rest in
    elim (Bool-cases (ltb ptr (first + k))) [
      | inl inside ↦
          let below : ptr < first + k = ground (arith, inside) in
          let limit = Contiguous-le chunks (btree_page_size * (first + k)) end later in
          let place : chunk.data_at + btree_page_size * (ptr - first) ≡ btree_page_size * ptr =
            omega arith in
          (λ under. rw (pages, inside) (ap ok place), λ over. absurd (omega arith))
      | inr beyond ↦
          let further =
            mapped_from-place chunks (first + k) ptr end later (ground (arith, beyond)) in
          (
            λ under. rw (pages, beyond) (further.0 under),
            λ over. rw (pages, beyond) (further.1 over),
          )
    ]

Contiguous-append :
    (chunks : List MmapChunk) (start end k : ℕ)
    → Contiguous start chunks end
    → Contiguous start
        (chunks ++ record { data_at = end; size = btree_page_size * k } ∷ [])
        (end + btree_page_size * k)
Contiguous-append [] start end k same =
    (sym same, (k, refl), ap (λ b. b + btree_page_size * k) same)
Contiguous-append (chunk ∷ chunks) start end k (here, whole, rest) =
    (here, whole, Contiguous-append chunks (start + chunk.size) end k rest)

-- What the loop leaves: enough bytes, whole pages, and no overflow.
abbrev Grown : ℕ → ℕ → Result ℕ → Type 0
Grown total size result =
    (alloc : ℕ) × (result ≡ ok alloc)
    × (size ≤ total + alloc)
    × (total + alloc < 2 ^ 64)
    × ((k : ℕ) × (alloc ≡ btree_page_size * k))

grow_alloc_on :
    (fuel total alloc size : ℕ)
    → ltb ((total + alloc) % 2 ^ 64) size ≡ true
    → grow_alloc (suc fuel) total alloc size ≡ grow_alloc fuel total (alloc * 2 % 2 ^ 64) size
unfolding grow_alloc
grow_alloc_on fuel total alloc size short = rw short refl

grow_alloc-Grown :
    (fuel total alloc size k : ℕ)
    → size < 2 ^ 62
    → total < 2 ^ 62
    → 0 < alloc
    → alloc < 2 ^ 63
    → alloc ≡ btree_page_size * k
    → size - alloc < fuel
    → Grown total size (grow_alloc fuel total alloc size)
unfolding grow_alloc
grow_alloc-Grown zero total alloc size k small low some_bytes bounded whole enough =
    absurd (omega arith)
grow_alloc-Grown (suc fuel) total alloc size k small low some_bytes bounded whole enough =
    let sum : (total + alloc) % 2 ^ 64 ≡ total + alloc = omega arith in
    elim (Bool-cases (ltb (total + alloc) size)) [
      | inr done ↦ (alloc, rw (sum, done) refl, ground (arith, done), omega arith, (k, whole))
      | inl short ↦
          let under : total + alloc < size = ground (arith, short) in
          let twice : alloc * 2 % 2 ^ 64 ≡ alloc * 2 = omega arith in
          let (end, call, reach, fits, pages) =
            grow_alloc-Grown fuel total (alloc * 2 % 2 ^ 64) size (k * 2) small low (omega arith)
              (omega arith) (omega arith) (omega arith) in
          (
            end,
            grow_alloc_on fuel total alloc size (ap (λ n. ltb n size) sum ∙ short) ∙ call,
            reach,
            fits,
            pages,
          )
    ]

-- extend_mmap, where the system call succeeds, maps the file from its start in whole pages, at least to the
-- given size; and where it has to map more and the call fails, it throws. Sizes are below 2^62.
pub extend_mmap-IsMapped :
    (size : ℕ) (m : Mapping)
    → size < 2 ^ 62
    → m.mmap_total < 2 ^ 62
    → IsMapped m
    → ((n : Mapping) × (extend_mmap true size m ≡ ok n) × IsMapped n × (size ≤ n.mmap_total))
      × (m.mmap_total < size
          → extend_mmap false size m ≡ stop (thrown (runtime_error (text "KV: mmap failed"))))
unfolding extend_mmap
extend_mmap-IsMapped size m small low mapped =
    let (k, whole) = whole_pages in
    elim (Bool-cases (leb size m.mmap_total)) [
      | inl covered ↦ (
        (m, rw covered refl, mapped, ground (arith, covered)),
        λ short. absurd (ground (arith, covered, short)),
      )
      | inr short ↦
          let (alloc, call, reach, fits, (j, pages)) =
            grow_alloc-Grown (suc size) m.mmap_total (first_alloc m.mmap_total) size k small low
              some_bytes bounded whole (omega arith) in
          let sum : (m.mmap_total + alloc) % 2 ^ 64 ≡ m.mmap_total + alloc = omega arith in
          let (t, total) = mapped.whole in
          (
            (
              record {
                chunks = m.chunks ++ record { data_at = m.mmap_total; size = alloc } ∷ [];
                mmap_total = m.mmap_total + alloc;
              },
              rw (short, call, sum) refl,
              record {
                contiguous =
                    subst
                      (λ a.
                        Contiguous 0 (m.chunks ++ record { data_at = m.mmap_total; size = a } ∷ [])
                          (m.mmap_total + a))
                      (sym pages) (Contiguous-append m.chunks 0 m.mmap_total j mapped.contiguous);
                whole = (t + j, omega arith);
              },
              reach,
            ),
            λ under. rw (short, call) refl,
          )
    ]
  where
    whole_pages : (k : ℕ) × (first_alloc m.mmap_total ≡ btree_page_size * k)
    whole_pages = elim (Bool-cases (ltb m.mmap_total min_mmap_size)) [
      | inl low ↦ (16384, rw low refl)
      | inr high ↦ rw high mapped.whole
    ]

    some_bytes : 0 < first_alloc m.mmap_total
    some_bytes = ground arith

    bounded : first_alloc m.mmap_total < 2 ^ 63
    bounded = ground (arith, low)

-- page_get_mapped finds each page of the mapped file at its place, and throws for a page behind it.
pub page_get_mapped-place :
    (m : Mapping) (ptr : ℕ)
    → IsMapped m
    → (btree_page_size * ptr < m.mmap_total → page_get_mapped m ptr ≡ ok (btree_page_size * ptr))
      × (m.mmap_total ≤ btree_page_size * ptr
          → page_get_mapped m ptr ≡ stop (thrown (out_of_range (text "KVReader: bad ptr"))))
unfolding page_get_mapped
page_get_mapped-place m ptr mapped =
    mapped_from-place m.chunks 0 ptr m.mmap_total mapped.contiguous (omega arith)

-- Behind an extend_mmap to a size below 2^62, whose system call succeeds, the chunks still map the file from
-- its start in whole pages, and page_get_mapped finds each page below the size at its place; where the call
-- is due and fails, extend_mmap throws.
pub page_get_mapped-extend_mmap :
    (size ptr : ℕ) (m : Mapping)
    → size < 2 ^ 62
    → m.mmap_total < 2 ^ 62
    → IsMapped m
    → ((n : Mapping) × (extend_mmap true size m ≡ ok n)
        × IsMapped n
        × (btree_page_size * ptr < size → page_get_mapped n ptr ≡ ok (btree_page_size * ptr)))
      × (m.mmap_total < size
          → extend_mmap false size m ≡ stop (thrown (runtime_error (text "KV: mmap failed"))))
page_get_mapped-extend_mmap size ptr m small low mapped =
    let ((n, called, still, reach), fails) = extend_mmap-IsMapped size m small low mapped in
    ((n, called, still, λ inside. (page_get_mapped-place n ptr still).0 (omega arith)), fails)
