-- ===== src/Catalog/Schema/Normal.antt =====
-- What the schema checks let through: check_index_keys returns exactly the normal forms of an index.
use sqldb.Base.{
  ℕ, zero, suc, ◌<◌, ◌≡◌, refl, sym, ◌∙◌, true, false, List, [], ◌∷◌, ◌++◌, inl, inr, Bytes,
  bytes_eq, bytes_eq_refl, length, ltb, lt→ltb, ltb→lt, ok, ensure, >>=-eq-ok, Bool-cases, All,
  take, some, subst, append_assoc, append-nil, arith,
}
use sqldb.Catalog.TableDef.{TableDef, key_count, key_cols}
use sqldb.Catalog.Schema.{
  position, col_index, has_col, contains, take_cols, add_keys, is_nonempty, check_index_keys,
}

-- The columns of `index` are known, and differ from one another and from those in `out`.
abbrev pub Fresh : TableDef → List Bytes → List Bytes → Type 0
Fresh d out [] = Unit
Fresh d out (c ∷ cs) = (has_col d c ≡ true) × (contains out c ≡ false) × Fresh d (out ++ c ∷ []) cs

pub Fresh-append :
    (d : TableDef) (out xs ys : List Bytes)
    → Fresh d out xs
    → Fresh d (out ++ xs) ys
    → Fresh d out (xs ++ ys)
Fresh-append d out [] ys hx hy = rw (append-nil out) at hy
Fresh-append d out (x ∷ xs) ys hx hy =
    (hx.0, hx.1, Fresh-append d (out ++ x ∷ []) xs ys hx.2 (rw (append_assoc out (x ∷ []) xs) hy))

-- take_cols accepts the fresh columns, in their order, and nothing else.
pub take_cols-ok :
    (d : TableDef) (index out r : List Bytes)
    → take_cols d index out ≡ ok r
    → (r ≡ out ++ index) × Fresh d out index
unfolding take_cols
take_cols-ok d [] out r h = (rw (append-nil out) (cc), tt)
take_cols-ok d (c ∷ cs) out r h =
    ground (arith, take_cols-ok d cs (out ++ c ∷ []) r, append_assoc out (c ∷ []) cs)

pub take_cols-Fresh :
    (d : TableDef) (index out : List Bytes)
    → Fresh d out index
    → take_cols d index out ≡ ok (out ++ index)
unfolding take_cols
take_cols-Fresh d [] out h = rw (append-nil out)
take_cols-Fresh d (c ∷ cs) out h =
    ground (arith, take_cols-Fresh d cs (out ++ c ∷ []) h.2, append_assoc out (c ∷ []) cs)

pub contains-append :
    (xs ys : List Bytes) (c : Bytes) → contains xs c ≡ true → contains (xs ++ ys) c ≡ true
unfolding contains
contains-append [] ys c h = cc
contains-append (x ∷ xs) ys c h = ground (arith, contains-append xs ys c)

contains_last : (xs : List Bytes) (c : Bytes) → contains (xs ++ c ∷ []) c ≡ true
unfolding contains
contains_last [] c = rw (bytes_eq_refl c)
contains_last (x ∷ xs) c = ground (arith, contains_last xs c)

-- What add_keys appends, and that afterwards no key column is missing.
abbrev Extends : TableDef → List Bytes → List Bytes → List Bytes → Type 0
Extends d keys out r =
    (extra : List Bytes) × (r ≡ out ++ extra)
    × Fresh d out extra
    × All (λ k. contains r k ≡ true) keys

add_keys_old :
    (k : Bytes) (ks out : List Bytes)
    → contains out k ≡ true
    → add_keys (k ∷ ks) out ≡ add_keys ks out
unfolding add_keys
add_keys_old k ks out h = rw h

add_keys_new :
    (k : Bytes) (ks out : List Bytes)
    → contains out k ≡ false
    → add_keys (k ∷ ks) out ≡ add_keys ks (out ++ k ∷ [])
unfolding add_keys
add_keys_new k ks out h = rw h

add_keys-Extends :
    (d : TableDef) (keys out : List Bytes)
    → All (λ k. has_col d k ≡ true) keys
    → Extends d keys out (add_keys keys out)
add_keys-Extends d [] out h = ([], unfold add_keys in sym (append-nil out), tt, tt)
add_keys-Extends d (k ∷ ks) out h = elim (Bool-cases (contains out k)) [
  | inl old ↦
      let (extra, e, fresh, all) = add_keys-Extends d ks out h.1 in
      subst (Extends d (k ∷ ks) out) (sym (add_keys_old k ks out old))
        (extra, e, fresh, (rw e (contains-append out extra k old), all))
  | inr new ↦
      let (extra, e, fresh, all) = add_keys-Extends d ks (out ++ k ∷ []) h.1 in
      subst (Extends d (k ∷ ks) out) (sym (add_keys_new k ks out new)) (
        k ∷ extra,
        e ∙ append_assoc out (k ∷ []) extra,
        (h.0, new, fresh),
        (rw e (contains-append (out ++ k ∷ []) extra k (contains_last out k)), all),
      )
]

-- Where no key column is missing there is nothing to append.
add_keys_none :
    (keys out : List Bytes) → All (λ k. contains out k ≡ true) keys → add_keys keys out ≡ out
unfolding add_keys
add_keys_none [] out h = refl
add_keys_none (k ∷ ks) out h = rw h.0 (add_keys_none ks out h.1)

-- A normal index: some columns, all known and distinct, every key column among them, and not
-- every column of the table.
pub record IsNormal (d : TableDef) (index : List Bytes) : Type 0 where
  pub nonempty : is_nonempty index ≡ true
  pub fresh : Fresh d [] index
  pub keyed : All (λ k. contains index k ≡ true) (key_cols d)
  pub partial : length index < length d.cols

position-found :
    (cols : List Bytes) (c : Bytes) (i : ℕ)
    → contains cols c ≡ true
    → (n : ℕ) × (position cols c i ≡ some n)
unfolding contains position
position-found [] c i h = cc
position-found (x ∷ xs) c i h = elim (Bool-cases (bytes_eq x c)) [
  | inl hit ↦ (i, rw hit)
  | inr miss ↦ rw miss (position-found xs c (suc i) (rw miss at h))
]

has_col-contains : (d : TableDef) (c : Bytes) → contains d.cols c ≡ true → has_col d c ≡ true
unfolding has_col col_index
has_col-contains d c h = let (n, e) = position-found d.cols c 0 h in rw (e, has_col, col_index)

take-contains :
    (n : ℕ) (cols : List Bytes) (front : List Bytes)
    → All (λ k. contains (front ++ cols) k ≡ true) (take n cols)
take-contains zero cols front = tt
take-contains (suc n) [] front = tt
take-contains (suc n) (c ∷ cs) front =
    let e = append_assoc front (c ∷ []) cs in
    (
      rw e at (contains-append (front ++ c ∷ []) cs c (contains_last front c)),
      subst (λ l. All (λ k. contains l k ≡ true) (take n cs)) e
          (take-contains n cs (front ++ c ∷ [])),
    )

All-map {ℓ κ λ'} :
    {A : Type ℓ} (P : A → Type κ) (Q : A → Type λ') (f : (a : A) → P a → Q a) (xs : List A)
    → All P xs
    → All Q xs
All-map P Q f [] h = tt
All-map P Q f (x ∷ xs) h = (f x h.0, All-map P Q f xs h.1)

key_cols-has_col : (d : TableDef) → All (λ k. has_col d k ≡ true) (key_cols d)
key_cols-has_col d =
    All-map _ _ (has_col-contains d) (key_cols d) (take-contains (key_count d) d.cols [])

nonempty-append : (xs ys : List Bytes) → is_nonempty xs ≡ true → is_nonempty (xs ++ ys) ≡ true
nonempty-append [] ys h = cc
nonempty-append (x ∷ xs) ys h = refl

-- The checks that a successful call has passed.
check_index_keys-inv :
    (d : TableDef) (index r : List Bytes)
    → check_index_keys d index ≡ ok r
    → (is_nonempty index ≡ true)
      × (take_cols d index [] ≡ ok index)
      × (r ≡ add_keys (key_cols d) index)
      × (length r < length d.cols)
unfolding check_index_keys
check_index_keys-inv d index r h =
    let (_, e, f) = >>=-eq-ok (ensure (is_nonempty index) _) _ h in
    let (taken, g, k) = >>=-eq-ok (take_cols d index []) _ f in
    let (same, _) = take_cols-ok d index [] taken g in
    let (_, l, m) =
      >>=-eq-ok (ensure (ltb (length (add_keys (key_cols d) taken)) (length d.cols)) _) _ k in
    ground (arith, ltb→lt (length (add_keys (key_cols d) taken)) (length d.cols))

-- Where check_index_keys succeeds, its result is the given columns with others behind them, and is a
-- normal index: not empty, columns of the table, none twice, every primary key column among them, and
-- fewer than the table's.
pub check_index_keys-IsNormal :
    (d : TableDef) (index r : List Bytes)
    → check_index_keys d index ≡ ok r
    → IsNormal d r × ((extra : List Bytes) × (r ≡ index ++ extra))
check_index_keys-IsNormal d index r h =
    let (full, taken, e, short) = check_index_keys-inv d index r h in
    let (extra, f, fresh, all) = add_keys-Extends d (key_cols d) index (key_cols-has_col d) in
    let g : r ≡ index ++ extra = e ∙ f in
    (
      record {
        nonempty = rw g (nonempty-append index extra full);
        fresh = rw g (Fresh-append d [] index extra (take_cols-ok d index [] index taken).1 fresh);
        keyed = subst (λ l. All (λ k. contains l k ≡ true) (key_cols d)) (sym e) all;
        partial = short;
      },
      (extra, g),
    )

-- On a normal index it changes nothing.
pub check_index_keys_normal :
    (d : TableDef) (index : List Bytes) → IsNormal d index → check_index_keys d index ≡ ok index
unfolding check_index_keys
check_index_keys_normal d index n = rw (
  n.nonempty,
  take_cols-Fresh d index [] n.fresh,
  add_keys_none (key_cols d) index n.keyed,
  lt→ltb _ _ n.partial,
)
