-- ===== src/Catalog/Schema/Checked.antt =====
-- What table_def_check lets through, and that it is stable.
use sqldb.Base.{
  ==_iff, ◌≡◌, refl, sym, true, List, [], ◌∷◌, ◌==◌, Bytes, length, ok, ensure, ensure-ok,
  ok-injective, >>=-eq-ok, All, subst, arith,
}
use sqldb.Catalog.TableDef.{TableDef}
use sqldb.Catalog.Schema.{
  col_index, has_col, is_nonempty, keys_in_range, check_index_keys, check_indexes, table_def_check,
}
use sqldb.Catalog.Schema.Normal.{IsNormal, check_index_keys-IsNormal, check_index_keys_normal}

abbrev pub AllNormal : TableDef → List (List Bytes) → Type 0
AllNormal d = All (IsNormal d)

check_indexes-AllNormal :
    (d : TableDef) (l r : List (List Bytes)) → check_indexes d l ≡ ok r → AllNormal d r
unfolding check_indexes
check_indexes-AllNormal d [] r h = subst (AllNormal d) (ok-injective h) tt
check_indexes-AllNormal d (x ∷ xs) r h =
    let (n, e, f) = >>=-eq-ok (check_index_keys d x) _ h in
    let (rest, g, k) = >>=-eq-ok (check_indexes d xs) _ f in
    subst (AllNormal d) (ok-injective k)
      ((check_index_keys-IsNormal d x n e).0, check_indexes-AllNormal d xs rest g)

check_indexes_normal :
    (d : TableDef) (l : List (List Bytes)) → AllNormal d l → check_indexes d l ≡ ok l
unfolding check_indexes
check_indexes_normal d [] h = refl
check_indexes_normal d (x ∷ xs) h =
    rw (check_index_keys_normal d x h.0, check_indexes_normal d xs h.1)

-- A definition that the catalog may store.
pub record IsChecked (d : TableDef) : Type 0 where
  pub named : is_nonempty d.name ≡ true
  pub parallel : length d.cols ≡ length d.types
  pub keyed : keys_in_range d ≡ true
  pub indexed : AllNormal d d.indexes

-- The normal forms depend on the columns and the key alone.
IsNormal-indexes :
    (d : TableDef) (l : List (List Bytes)) (index : List Bytes)
    → IsNormal d index
    → IsNormal (record d { indexes = l }) index
unfolding has_col col_index
IsNormal-indexes d l index n = record {
  nonempty = n.nonempty;
  fresh = n.fresh;
  keyed = n.keyed;
  partial = n.partial;
}

AllNormal-indexes :
    (d : TableDef) (l : List (List Bytes)) (r : List (List Bytes))
    → AllNormal d r
    → AllNormal (record d { indexes = l }) r
AllNormal-indexes d l [] h = tt
AllNormal-indexes d l (x ∷ xs) h = (IsNormal-indexes d l x h.0, AllNormal-indexes d l xs h.1)

-- A definition that table_def_check accepts comes back checked, with nothing but its indexes changed.
pub table_def_check-IsChecked :
    (d r : TableDef)
    → table_def_check d ≡ ok r
    → IsChecked r × ((l : List (List Bytes)) × (r ≡ record d { indexes = l }))
unfolding table_def_check
table_def_check-IsChecked d r h =
    let (_, e1, f) = >>=-eq-ok (ensure (is_nonempty d.name) _) _ h in
    let (_, e2, g) = >>=-eq-ok (ensure (length d.cols == length d.types) _) _ f in
    let (_, e3, k) = >>=-eq-ok (ensure (keys_in_range d) _) _ g in
    let (l, e4, m) = >>=-eq-ok (check_indexes d d.indexes) _ k in
    let same : record d { indexes = l } ≡ r = ok-injective m in
    (
      subst IsChecked same (record {
        named = ensure-ok _ _ e1;
        parallel = ground (arith, ensure-ok _ _ e2);
        keyed = ensure-ok _ _ e3;
        indexed = AllNormal-indexes d l l (check_indexes-AllNormal d d.indexes l e4);
      }),
      (l, sym same),
    )

-- A checked definition passes, unchanged: the normalization is idempotent.
pub table_def_check_checked : (d : TableDef) → IsChecked d → table_def_check d ≡ ok d
unfolding table_def_check
table_def_check_checked d c = rw (
  c.named,
  (==_iff (length d.cols) (length d.types)).1 c.parallel,
  c.keyed,
  check_indexes_normal d d.indexes c.indexed,
)
