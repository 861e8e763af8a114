-- ===== src/Access/Table/Choice.antt =====
-- Which tree find_index chooses, and what the choice does to a scan.
use sqldb.Base.{
  ℕ, suc, ◌+◌, ◌≤◌, ◌≡◌, ◌≢◌, refl, true, false, List, [], ◌∷◌, Option, none, some, length,
  get_elem?, ltb, Bytes, ok, stop, Stop, Result-cases, All, arith, subst, Bool-cases, Option-cases,
  ◌⊎◌, inl, inr,
}
use sqldb.Storage.Cmp.{Cmp}
use sqldb.Catalog.Record.{Record}
use sqldb.Catalog.TableDef.{TableDef, key_cols}
use sqldb.Access.Table.{
  is_prefix, Tree, primary, secondary, shortest, find_index, tree_cols, opposite, check_bound,
  ScanPlan, plan_scan,
}

-- An index that starts with the keys, no longer than any other in the list that does.
abbrev pub Least : List (List Bytes) → List Bytes → List Bytes → Type 0
Least indexes keys cols =
    All (λ index. is_prefix index keys ≡ true → length cols ≤ length index) indexes

-- The result of the loop from position `i` on, against the indexes that it goes through.
abbrev pub Winner :
    List (List Bytes) → ℕ → List Bytes → Option (ℕ × List Bytes) → ℕ × List Bytes → Type 0
Winner indexes i keys winner w =
    ((winner ≡ some w)
      ⊎ ((j : ℕ) × (w.0 ≡ i + j) × (get_elem? indexes j ≡ some w.1) × (is_prefix w.1 keys ≡ true)))
    × Least indexes keys w.1
    × ((v : ℕ × List Bytes) → winner ≡ some v → length w.1 ≤ length v.1)

-- One index further: what the loop holds behind it, against what it holds before it.
Winner-kept :
    (index : List Bytes) (indexes : List (List Bytes)) (i : ℕ) (keys : List Bytes)
    (winner : Option (ℕ × List Bytes)) (w : ℕ × List Bytes)
    → (is_prefix index keys ≡ true
        → (v : ℕ × List Bytes) × (winner ≡ some v) × (length v.1 ≤ length index))
    → Winner indexes (suc i) keys winner w
    → Winner (index ∷ indexes) i keys winner w
Winner-kept index indexes i keys winner w none_shorter (found, least, below) = (
  elim found [
    | inl e ↦ inl e
    | inr (j, at, there, starts) ↦ inr (suc j, omega arith, there, starts)
  ],
  (λ starts. let (v, e, le) = none_shorter starts in omega (arith, below v e), least),
  below,
)

Winner-taken :
    (index : List Bytes) (indexes : List (List Bytes)) (i : ℕ) (keys : List Bytes)
    (winner : Option (ℕ × List Bytes)) (w : ℕ × List Bytes)
    → is_prefix index keys ≡ true
    → ((v : ℕ × List Bytes) → winner ≡ some v → length index ≤ length v.1)
    → Winner indexes (suc i) keys (some (i, index)) w
    → Winner (index ∷ indexes) i keys winner w
Winner-taken index indexes i keys winner w starts shorter (found, least, below) = (
  elim found [
    | inl e ↦ inr (0, ground arith, cc, subst (λ c. is_prefix c keys ≡ true) (ground arith) starts)
    | inr (j, at, there, starts') ↦ inr (suc j, omega arith, there, starts')
  ],
  (λ _. below (i, index) refl, least),
  λ v e. omega (arith, below (i, index) refl, shorter v e),
)

shortest-Winner :
    (indexes : List (List Bytes)) (i : ℕ) (keys : List Bytes) (winner : Option (ℕ × List Bytes))
    (w : ℕ × List Bytes)
    → shortest indexes i keys winner ≡ some w
    → Winner indexes i keys winner w
unfolding shortest
shortest-Winner [] i keys winner w h = (inl h, tt, λ v e. ground arith)
shortest-Winner (index ∷ indexes) i keys winner w h = elim (Bool-cases (is_prefix index keys)) [
  | inl starts ↦ elim (Option-cases winner) [
    | inl e ↦
        Winner-taken index indexes i keys winner w starts (λ v f. ground arith)
          (shortest-Winner indexes (suc i) keys (some (i, index)) w (ground arith))
    | inr (v, e) ↦ elim (Bool-cases (ltb (length index) (length v.1))) [
      | inl lt ↦
          Winner-taken index indexes i keys winner w starts (λ u f. ground arith)
            (shortest-Winner indexes (suc i) keys (some (i, index)) w (ground arith))
      | inr ge ↦
          Winner-kept index indexes i keys winner w (λ _. (v, e, ground arith))
            (shortest-Winner indexes (suc i) keys winner w (ground arith))
    ]
  ]
  | inr other ↦
      Winner-kept index indexes i keys winner w (λ yes. ground arith)
        (shortest-Winner indexes (suc i) keys winner w (ground arith))
]

-- The trees that find_index may name for a list of columns.
abbrev pub IsChoice : TableDef → List Bytes → Tree → Type 0
IsChoice d keys primary = is_prefix (key_cols d) keys ≡ true
IsChoice d keys (secondary i cols) =
    (is_prefix (key_cols d) keys ≡ false)
    × (get_elem? d.indexes i ≡ some cols)
    × (is_prefix cols keys ≡ true)
    × Least d.indexes keys cols

-- find_index, where it succeeds, names a tree whose columns start with the given ones: the primary
-- key where that does, else an index of the table, by its position and its columns, and no index
-- that starts with the given columns is shorter than it.
pub find_index-IsChoice :
    (d : TableDef) (keys : List Bytes) (tree : Tree)
    → find_index d keys ≡ ok tree
    → IsChoice d keys tree
unfolding find_index
find_index-IsChoice d keys primary h = ground arith
find_index-IsChoice d keys (secondary i cols) h =
    let won : shortest d.indexes 0 keys none ≡ some (i, cols) = ground arith in
    let (found, least, below) = shortest-Winner d.indexes 0 keys none (i, cols) won in
    elim found [
      | inl e ↦ ground arith
      | inr (j, at, there, starts) ↦
          let here : i ≡ j = omega (arith, at) in (ground arith, rw (here) there, starts, least)
    ]

-- The loop holds nothing at the end only where it held nothing and no index starts with the keys.
shortest-none :
    (indexes : List (List Bytes)) (i : ℕ) (keys : List Bytes) (winner : Option (ℕ × List Bytes))
    → shortest indexes i keys winner ≡ none
    → (winner ≡ none) × All (λ index. is_prefix index keys ≡ false) indexes
unfolding shortest
shortest-none [] i keys winner h = (h, tt)
shortest-none (index ∷ indexes) i keys none h = ground (
  arith,
  shortest-none indexes (suc i) keys none,
  shortest-none indexes (suc i) keys (some (i, index)),
)
shortest-none (index ∷ indexes) i keys (some w) h = ground (
  arith,
  shortest-none indexes (suc i) keys (some w),
  shortest-none indexes (suc i) keys (some (i, index)),
)

-- find_index fails only where neither the primary key nor any index of the table starts with the
-- given columns.
pub find_index-stop :
    (d : TableDef) (keys : List Bytes) (e : Stop)
    → find_index d keys ≡ stop e
    → (is_prefix (key_cols d) keys ≡ false) × All (λ index. is_prefix index keys ≡ false) d.indexes
unfolding find_index
find_index-stop d keys e h = elim (Option-cases (shortest d.indexes 0 keys none)) [
  | inl f ↦ ground (arith, shortest-none d.indexes 0 keys none f)
  | inr (w, f) ↦ ground arith
]

-- A plan scans the tree that the lower key's columns choose, between keys of that tree.
abbrev pub IsPlan : TableDef → Cmp → Cmp → Record → Record → ScanPlan → Type 0
IsPlan d cmp1 cmp2 key1 key2 plan =
    (opposite cmp1 cmp2 ≡ true)
    × IsChoice d key1.cols plan.tree
    × (is_prefix (tree_cols d plan.tree) key1.cols ≡ true)
    × (is_prefix (tree_cols d plan.tree) key2.cols ≡ true)

check_bound-ok :
    (d : TableDef) (cols : List Bytes) (key : Record)
    → check_bound d cols key ≡ ok tt
    → is_prefix cols key.cols ≡ true
unfolding check_bound
check_bound-ok d cols key h = ground arith

-- Where db_scan gets as far as the seek, its two comparisons are opposite, it scans the tree that
-- find_index names for the first key's columns, and the columns of both keys are the first of
-- that tree's.
pub plan_scan-IsPlan :
    (d : TableDef) (cmp1 cmp2 : Cmp) (key1 key2 : Record) (plan : ScanPlan)
    → plan_scan d cmp1 cmp2 key1 key2 ≡ ok plan
    → IsPlan d cmp1 cmp2 key1 key2 plan
unfolding plan_scan
plan_scan-IsPlan d cmp1 cmp2 key1 key2 plan h = elim (Result-cases (find_index d key1.cols)) [
  | inl (tree, f) ↦
      let same : tree ≡ plan.tree = ground arith in
      (
        ground arith,
        subst (IsChoice d key1.cols) same (find_index-IsChoice d key1.cols tree f),
        subst (λ t. is_prefix (tree_cols d t) key1.cols ≡ true) same
            (check_bound-ok d (tree_cols d tree) key1 (ground arith)),
        subst (λ t. is_prefix (tree_cols d t) key2.cols ≡ true) same
            (check_bound-ok d (tree_cols d tree) key2 (ground arith)),
      )
  | inr (e, f) ↦ ground arith
]

IsChoice-primary :
    (d : TableDef) (keys : List Bytes) (tree : Tree)
    → is_prefix (key_cols d) keys ≡ true
    → IsChoice d keys tree
    → tree ≡ primary
IsChoice-primary d keys primary starts choice = refl
IsChoice-primary d keys (secondary i cols) starts choice = ground arith

-- A second key that names a column which is none of the primary key's never gets to the seek, where
-- the first key's columns are the first of the primary key: not even if some index starts with both.
pub plan_scan_unserved :
    (d : TableDef) (cmp1 cmp2 : Cmp) (key1 key2 : Record) (plan : ScanPlan)
    → is_prefix (key_cols d) key1.cols ≡ true
    → is_prefix (key_cols d) key2.cols ≡ false
    → plan_scan d cmp1 cmp2 key1 key2 ≢ ok plan
plan_scan_unserved d cmp1 cmp2 key1 key2 plan starts other h =
    let (turned, choice, lower, upper) = plan_scan-IsPlan d cmp1 cmp2 key1 key2 plan h in
    let here : plan.tree ≡ primary = IsChoice-primary d key1.cols plan.tree starts choice in
    let both : is_prefix (key_cols d) key2.cols ≡ true =
      subst (λ t. is_prefix (tree_cols d t) key2.cols ≡ true) here upper in
    ground arith
