-- ===== src/Storage/Kv/WritePages.antt =====
-- KV::write_pages of src/storage/kv.cpp, behind its extend_mmap. The buffered pages stand in the order of
-- their numbers, as in the std::map, and the file is known by its pages.
use sqldb.Base.{
  ℕ, zero, suc, ◌<◌, ◌≤◌, ◌≡◌, refl, sym, ap, subst, ◌∙◌, true, false, List, [], ◌∷◌, Option, some,
  length, drop, drop-drop, none, ◌+◌, ◌==◌, if◌then◌else◌, text, Bytes, Result, ok, stop, thrown,
  runtime_error, out_of_fuel, ◌>>=◌, or_stop, Bool-cases, Option-cases, ◌⊎◌, inl, inr, arith,
}

abbrev pub Updates : Type 0
Updates = List (ℕ × Bytes)

abbrev pub max_iovs : ℕ
max_iovs = 64

-- What the pages from one number on are behind a write of a run of them.
unfoldable pub page_behind : ℕ → List Bytes → ℕ → Bytes → Bytes
page_behind first [] p old = old
page_behind first (page ∷ pages) p old =
    if first == p then page else page_behind (suc first) pages p old

-- The file, and pwritev at the place of a page: none where it returns less than it was asked for.
pub record Disk (F : Type 0) : Type 0 where
  pub read : F → ℕ → Bytes
  pub pwritev : ℕ → List Bytes → F → Option F
  pub pwritev-read :
      (first : ℕ) (pages : List Bytes) (f g : F)
      → pwritev first pages f ≡ some g
      → (p : ℕ) → read g p ≡ page_behind first pages p (read f p)

-- The inner loop: the pages from a number on, as far as they have no gap, and the updates behind them.
unfoldable pub take_run : ℕ → ℕ → Updates → List Bytes × Updates
take_run ptr zero updates = ([], updates)
take_run ptr (suc room) [] = ([], [])
take_run ptr (suc room) (u ∷ updates) =
    let run = take_run (suc ptr) room updates in
    if u.0 == ptr then (u.1 ∷ run.0, run.1) else ([], u ∷ updates)

module _ {F : Type 0} (disk : Disk F) where
  -- The outer loop, with a bound on its rounds.
  unfoldable pub write_loop : ℕ → Updates → F → Result F
  write_loop fuel [] f = ok f
  write_loop zero (u ∷ updates) f = stop out_of_fuel
  write_loop (suc fuel) (u ∷ updates) f = do
    let run = take_run u.0 max_iovs (u ∷ updates)
    g ← or_stop (disk.pwritev u.0 run.0 f) (thrown (runtime_error (text "KV: pwritev failed")))
    write_loop fuel run.1 g

  unfoldable pub write_pages : Updates → F → Result F
  write_pages updates f = write_loop (length updates) updates f

-- What a page holds behind all updates.
unfoldable pub updated : Updates → ℕ → Bytes → Bytes
updated [] p old = old
updated (u ∷ updates) p old = if u.0 == p then u.1 else updated updates p old

-- The updates have ascending numbers, from a bound on.
abbrev pub From : ℕ → Updates → Type 0
From low [] = Unit
From low (u ∷ updates) = (low ≤ u.0) × From (suc u.0) updates

From-le : (low high : ℕ) (updates : Updates) → low ≤ high → From high updates → From low updates
From-le low high [] h from = tt
From-le low high (u ∷ updates) h (k, from) = (omega arith, from)

-- A page below the first update keeps what it holds.
updated_below :
    (low p : ℕ) (old : Bytes) (updates : Updates)
    → From low updates
    → p < low
    → updated updates p old ≡ old
unfolding updated
updated_below low p old [] from h = refl
updated_below low p old (u ∷ updates) (k, from) h =
    let other : (u.0 == p) ≡ false = ground (arith, k, h) in
    rw other (updated_below (suc u.0) p old updates from (omega arith))

-- A run and the updates behind it are the updates, which are no more than before.
take_run-updated :
    (ptr room : ℕ) (updates : Updates)
    → From ptr updates
    → (length (take_run ptr room updates).1 ≤ length updates)
      × From ptr (take_run ptr room updates).1
      × ((p : ℕ) (old : Bytes)
          → updated
              (take_run ptr room updates).1
              p
              (page_behind ptr (take_run ptr room updates).0 p old)
            ≡ updated updates p old)
unfolding take_run updated page_behind
take_run-updated ptr zero updates from = (omega arith, from, λ p old. refl)
take_run-updated ptr (suc room) [] from = (omega arith, from, λ p old. refl)
take_run-updated ptr (suc room) (u ∷ updates) (low, from) = elim (Bool-cases (u.0 == ptr)) [
  | inr gap ↦ rw gap (omega arith, (low, from), λ p old. refl)
  | inl here ↦
      let same : u.0 ≡ ptr = ground (arith, here) in
      let (few, ordered, all) =
        take_run-updated (suc ptr) room updates (subst (λ k. From (suc k) updates) same from) in
      rw here (
        omega arith,
        From-le ptr (suc ptr) (take_run (suc ptr) room updates).1 (omega arith) ordered,
        λ p old. elim (Bool-cases (ptr == p)) [
          | inl this ↦
              rw (same, this)
                (updated_below (suc ptr) p u.1 (take_run (suc ptr) room updates).1 ordered
                  (ground (arith, this)))
          | inr other ↦ rw (same, other) (all p old)
        ],
      )
]

-- What is behind a run.
take_run-drop :
    (ptr room : ℕ) (updates : Updates)
    → (take_run ptr room updates).1 ≡ drop (length (take_run ptr room updates).0) updates
unfolding take_run
take_run-drop ptr zero updates = refl
take_run-drop ptr (suc room) [] = refl
take_run-drop ptr (suc room) (u ∷ updates) = elim (Bool-cases (u.0 == ptr)) [
  | inr gap ↦ rw gap refl
  | inl here ↦ rw here (take_run-drop (suc ptr) room updates)
]

-- The run of the first update takes it.
take_run-cons :
    (room : ℕ) (u : ℕ × Bytes) (updates : Updates)
    → (take_run u.0 (suc room) (u ∷ updates)).1 ≡ (take_run (suc u.0) room updates).1
unfolding take_run
take_run-cons room u updates = let same : (u.0 == u.0) ≡ true = ground arith in rw same refl

module _ {F : Type 0} (disk : Disk F) where
  -- A pwritev of a run of the buffered pages, as take_run makes it, returns less than it was asked for.
  abbrev pub FallsShort : Updates → Type 0
  FallsShort updates =
      (k : ℕ) × (u : ℕ × Bytes) × (behind : Updates) × (g : F) × (drop k updates ≡ u ∷ behind)
      × (disk.pwritev u.0 (take_run u.0 max_iovs (u ∷ behind)).0 g ≡ none)

  write_loop-updated :
      (fuel low : ℕ) (updates : Updates) (f : F)
      → From low updates
      → length updates ≤ fuel
      → ((g : F) × (write_loop disk fuel updates f ≡ ok g)
          × ((p : ℕ) → disk.read g p ≡ updated updates p (disk.read f p)))
        ⊎ (FallsShort updates
            × (write_loop disk fuel updates f
                ≡ stop (thrown (runtime_error (text "KV: pwritev failed")))))
  unfolding write_loop updated
  write_loop-updated fuel low [] f from enough = inl (f, refl, λ p. refl)
  write_loop-updated zero low (u ∷ updates) f from enough = absurd (omega arith)
  write_loop-updated (suc fuel) low (u ∷ updates) f (above, from) enough =
      let run = take_run u.0 max_iovs (u ∷ updates) in
      let (few, ordered, all) = take_run-updated u.0 max_iovs (u ∷ updates) (omega arith, from) in
      let fewer : length run.1 ≤ length updates =
        subst (λ l. length l ≤ length updates) (sym (take_run-cons 63 u updates))
          (take_run-updated (suc u.0) 63 updates from).0 in
      elim (Option-cases (disk.pwritev u.0 run.0 f)) [
        | inl failed ↦ inr ((0, u, updates, f, refl, failed), rw failed refl)
        | inr (g, written) ↦ elim (write_loop-updated fuel u.0 run.1 g ordered (omega arith)) [
          | inr ((k, v, behind, t, rest, failed), why) ↦ inr (
            (
              length run.0 + k,
              v,
              behind,
              t,
              sym (drop-drop (u ∷ updates) (length run.0) k (length run.0 + k) refl)
                  ∙ ap (drop k) (sym (take_run-drop u.0 max_iovs (u ∷ updates)))
                  ∙ rest,
              failed,
            ),
            rw written why,
          )
          | inl (t, done, reads) ↦ inl (
            t,
            rw written done,
            λ p.
                reads p
                ∙ ap (updated run.1 p) (disk.pwritev-read u.0 run.0 f g written p)
                ∙ all p (disk.read f p),
          )
        ]
      ]

  -- The loops of write_pages, on a buffer in the order of its page numbers, end: with every buffered page
  -- at its place in the file and every other page as it was, or at the exception, where a pwritev of a run
  -- of the buffered pages returns less than it was asked for.
  pub write_pages-updated :
      (updates : Updates) (f : F)
      → From 0 updates
      → ((g : F) × (write_pages disk updates f ≡ ok g)
          × ((p : ℕ) → disk.read g p ≡ updated updates p (disk.read f p)))
        ⊎ (FallsShort updates
            × (write_pages disk updates f
                ≡ stop (thrown (runtime_error (text "KV: pwritev failed")))))
  unfolding write_pages
  write_pages-updated updates f from =
      write_loop-updated (length updates) 0 updates f from (omega arith)
