-- ===== src/Ql/Exec/Rows.antt =====
-- scan_rows against WHERE, OFFSET and LIMIT on a list of rows.
use sqldb.Base.{
  ℕ, zero, suc, ◌-◌, ◌<◌, ◌≡◌, refl, sym, ap, ◌∙◌, Bool, true, false, List, [], ◌∷◌, length, take,
  drop, if◌then◌else◌, ℤ, pos, negsuc, Result, ok, ◌>>=◌, >>=-eq-ok, ok-injective, Bool-cases, inl,
  inr, arith,
}
use sqldb.Catalog.Record.{Record}
use sqldb.Catalog.TableDef.{TableDef}
use sqldb.Ql.Ast.{QlNode, uninit, tag, QlScan}
use sqldb.Ql.Range.{ql_range}
use sqldb.Ql.Exec.{Reads, keeps, to_skip, is_full, scan_loop, scan_rows}

-- WHERE: the rows that the filter keeps, where it can be evaluated on every one.
unfoldable pub filter_rows : QlNode → List Record → Result (List Record)
filter_rows filter [] = ok []
filter_rows filter (row ∷ rows) = do
  keep ← keeps filter row
  rest ← filter_rows filter rows
  ok (if keep then row ∷ rest else rest)

-- OFFSET and LIMIT behind counts of rows that have been skipped and taken. A negative one is none.
abbrev pub skip_rows : ℕ → ℤ → List Record → List Record
skip_rows skipped (pos n) rows = drop (n - skipped) rows
skip_rows skipped (negsuc n) rows = rows

abbrev pub limit_rows : ℕ → ℤ → List Record → List Record
limit_rows taken (pos n) rows = take (n - taken) rows
limit_rows taken (negsuc n) rows = rows

skip_rows-cons :
    (skipped : ℕ) (offset : ℤ) (row : Record) (rows : List Record)
    → to_skip skipped offset ≡ true
    → skip_rows skipped offset (row ∷ rows) ≡ skip_rows (suc skipped) offset rows
unfolding to_skip
skip_rows-cons skipped (negsuc n) row rows skips = cc
skip_rows-cons skipped (pos n) row rows skips =
    let one_more : n - skipped ≡ suc (n - suc skipped) = ground (arith, skips) in rw one_more refl

skip_rows-done :
    (skipped : ℕ) (offset : ℤ) (rows : List Record)
    → to_skip skipped offset ≡ false
    → skip_rows skipped offset rows ≡ rows
unfolding to_skip
skip_rows-done skipped (negsuc n) rows skips = refl
skip_rows-done skipped (pos n) rows skips =
    let none_left : n - skipped ≡ 0 = ground (arith, skips) in rw none_left refl

limit_rows-full :
    (taken : ℕ) (limit : ℤ) (rows : List Record)
    → is_full taken limit ≡ true
    → limit_rows taken limit rows ≡ []
unfolding is_full
limit_rows-full taken (negsuc n) rows full = cc
limit_rows-full taken (pos n) rows full =
    let none_left : n - taken ≡ 0 = ground (arith, full) in rw none_left refl

limit_rows-cons :
    (taken : ℕ) (limit : ℤ) (row : Record) (rows : List Record)
    → is_full taken limit ≡ false
    → limit_rows taken limit (row ∷ rows) ≡ row ∷ limit_rows (suc taken) limit rows
unfolding is_full
limit_rows-cons taken (negsuc n) row rows full = refl
limit_rows-cons taken (pos n) row rows full =
    let one_more : n - taken ≡ suc (n - suc taken) = ground (arith, full) in rw one_more refl

drop_nil : (n : ℕ) → drop {A = Record} n [] ≡ []
drop_nil zero = refl
drop_nil (suc n) = refl

take_nil : (n : ℕ) → take {A = Record} n [] ≡ []
take_nil zero = refl
take_nil (suc n) = refl

window_nil :
    (taken skipped : ℕ) (limit offset : ℤ)
    → limit_rows taken limit (skip_rows skipped offset []) ≡ []
window_nil taken skipped (pos m) (pos n) =
    ap (take (m - taken)) (drop_nil (n - skipped)) ∙ take_nil (m - taken)
window_nil taken skipped (pos m) (negsuc n) = take_nil (m - taken)
window_nil taken skipped (negsuc m) (pos n) = drop_nil (n - skipped)
window_nil taken skipped (negsuc m) (negsuc n) = refl

module _ {S : Type 0} (tx : Reads S) (s : S) where
  -- The rows that a scanner goes through, one after the other.
  pub data Ahead : tx.Scan → List Record → Type 0 where
    at_end : (sc : tx.Scan) → tx.valid sc ≡ ok false → Ahead sc []
    at_row :
        (sc moved : tx.Scan) (row : Record) (rows : List Record)
        → tx.valid sc ≡ ok true
        → tx.deref s sc ≡ ok row
        → tx.next s sc ≡ ok moved
        → Ahead moved rows
        → Ahead sc (row ∷ rows)

  scan_loop-window :
      (fuel : ℕ) (req : QlScan) (sc : tx.Scan) (skipped taken : ℕ) (rows kept : List Record)
      → Ahead sc rows
      → length rows < fuel
      → filter_rows req.filter rows ≡ ok kept
      → scan_loop tx fuel req s sc skipped taken
        ≡ ok (limit_rows taken req.limit (skip_rows skipped req.offset kept))
  unfolding scan_loop filter_rows
  scan_loop-window zero req sc skipped taken rows kept ahead enough filtered = absurd (omega arith)
  scan_loop-window (suc fuel) req sc skipped taken [] kept (at_end _ done) enough filtered =
      rw done (
        ap ok (
          sym (
            ap (λ l. limit_rows taken req.limit (skip_rows skipped req.offset l))
              (sym (ok-injective filtered))
            ∙ window_nil taken skipped req.limit req.offset)))
  scan_loop-window (suc fuel) req sc skipped taken (row ∷ rows) kept
        (at_row _ moved _ _ good read step ahead) enough filtered =
      let (keep, tested, later) = >>=-eq-ok (keeps req.filter row) _ filtered in
      let (rest, others, same) = >>=-eq-ok (filter_rows req.filter rows) _ later in
      let go : (k t : ℕ)
          → scan_loop tx fuel req s moved k t
            ≡ ok (limit_rows t req.limit (skip_rows k req.offset rest)) =
        λ k t. scan_loop-window fuel req moved k t rows rest ahead (omega arith) others in
      let window_of : List Record → List Record =
        λ l. limit_rows taken req.limit (skip_rows skipped req.offset l) in
      let picked : (b : Bool) → keep ≡ b → kept ≡ (if b then row ∷ rest else rest) =
        λ b e. sym (ok-injective same) ∙ ap (λ c. if c then row ∷ rest else rest) e in
      let rest_is : keep ≡ false → rest ≡ kept = λ e. sym (picked false e) in
      let window : keep ≡ true → window_of kept ≡ window_of (row ∷ rest) =
        λ e. ap window_of (picked true e) in
      elim (Bool-cases keep) [
        | inr dropped ↦
            rw (good, read, tested, dropped, step, go skipped taken)
              (ap ok (ap window_of (rest_is dropped)))
        | inl kept_row ↦ elim (Bool-cases (to_skip skipped req.offset)) [
          | inl skips ↦
              rw (good, read, tested, kept_row, skips, step, go (suc skipped) taken)
                (ap ok (
                  sym (
                    window kept_row
                    ∙ ap (limit_rows taken req.limit)
                        (skip_rows-cons skipped req.offset row rest skips))))
          | inr at_window ↦ elim (Bool-cases (is_full taken req.limit)) [
            | inl full ↦
                rw (good, read, tested, kept_row, at_window, full)
                  (ap ok (
                    sym (limit_rows-full taken req.limit (skip_rows skipped req.offset kept) full)))
            | inr room ↦
                rw (good, read, tested, kept_row, at_window, room, step, go skipped (suc taken))
                  (ap ok (
                    sym (
                      window kept_row
                      ∙ ap (limit_rows taken req.limit)
                          (skip_rows-done skipped req.offset (row ∷ rest) at_window)
                      ∙ limit_rows-cons taken req.limit row rest room
                      ∙ ap (λ l. row ∷ limit_rows (suc taken) req.limit l)
                          (sym (skip_rows-done skipped req.offset rest at_window)))))
          ]
        ]
      ]

-- scan_rows, over a table whose rows the scanner goes through and a filter that can be evaluated on each of
-- them, with fuel beyond their number, returns what WHERE keeps, less what OFFSET skips, as far as LIMIT
-- allows: the whole where it is negative.
pub scan_rows-window :
    {S : Type 0} (tx : Reads S) (fuel : ℕ) (req : QlScan) (s t u : S) (d : TableDef) (sc : tx.Scan)
    (rows kept : List Record)
    → tag req.key1 ≡ uninit
    → tag req.key2 ≡ uninit
    → tx.table_def req.table s ≡ ok (d, t)
    → tx.scan req.table
        (ql_range req.filter d).cmp1
        (ql_range req.filter d).cmp2
        (ql_range req.filter d).key1
        (ql_range req.filter d).key2
        t
      ≡ ok (sc, u)
    → Ahead tx u sc rows
    → length rows < fuel
    → filter_rows req.filter rows ≡ ok kept
    → scan_rows tx fuel req s ≡ ok (limit_rows 0 req.limit (skip_rows 0 req.offset kept), u)
unfolding scan_rows
scan_rows-window tx fuel req s t u d sc rows kept no_key1 no_key2 defined started ahead enough
      filtered =
    rw
      (
        no_key1,
        no_key2,
        defined,
        started,
        scan_loop-window tx u fuel req sc 0 0 rows kept ahead enough filtered,
      )
      refl
