-- ===== src/Access/Scan/Found.antt =====
-- db_get finds the row that the map has under its primary key, and the row that db_update has written.
use sqldb.Base.{
  drop_all, take_all, ℕ, ◌⊎◌, ◌≡◌, ◌≤◌, refl, sym, ap, subst, ◌∙◌, true, List, [], ◌∷◌, ◌++◌, none,
  some, map, take, drop, length, length-map, length-take, take-append-drop, Bytes, bytes_eq_refl,
  lex_refl, ok, inl, inr, append-nil, ok-injective, All, arith,
}
use sqldb.Catalog.Value.{Value, ValueType, type_eq, IsStored}
use sqldb.Catalog.Record.{Record}
use sqldb.Catalog.TableDef.{TableDef, key_count, key_cols}
use sqldb.Storage.Cmp.{Cmp, cmp_ge, cmp_le, cmp_ok}
use sqldb.Storage.SortedMap.{Pairs, find, put, find-put_self}
use sqldb.Storage.Tree.{check_key_limit}
use sqldb.Storage.Tree.Versions.{check_limit-key}
use sqldb.Storage.Kv.Tx.{UpdateMode, Allows}
use sqldb.Storage.Kv.Api.{Api}
use sqldb.Access.RowCodec.{
  col_type, encode_key, encode_key_partial, pad_cols, decode_row, check_record,
}
use sqldb.Access.RowCodec.Check.{check_record_iff}
use sqldb.Access.RowCodec.RoundTrip.{types_of, decode_row-encode_key}
use sqldb.Access.Table.{primary, is_prefix, find_index, check_bound, check_types, plan_scan}
use sqldb.Access.Rows.{db_update}
use sqldb.Access.Rows.Indexed.{put_keys, Fresh, find-put_keys}
use sqldb.Access.Rows.Effect.{IsRow, db_update-put}
use sqldb.Access.Scan.{db_scan, db_get, scan_valid, deref_by}

-- Each column of the primary key is the first of its name, so the name stands for its own type.
abbrev pub OwnTypes : TableDef → Type 0
OwnTypes d = map (col_type d) (key_cols d) ≡ map some (take (key_count d) d.types)

is_prefix_refl : (cols : List Bytes) → is_prefix cols cols ≡ true
unfolding is_prefix
is_prefix_refl [] = refl
is_prefix_refl (c ∷ cols) = rw (bytes_eq_refl c, is_prefix_refl cols) refl

type_eq_refl : (t : ValueType) → type_eq t t ≡ true
type_eq_refl ValueType.error = refl
type_eq_refl ValueType.int_64 = refl
type_eq_refl ValueType.bytes = refl

check_types-own :
    (d : TableDef) (cols : List Bytes) (vals : List Value)
    → map (col_type d) cols ≡ map some (types_of vals)
    → check_types d cols vals ≡ ok tt
unfolding check_types
check_types-own d [] vals own = refl
check_types-own d (c ∷ cols) [] own = cc
check_types-own d (c ∷ cols) (v ∷ vals) own =
    ground (arith, own, type_eq_refl v.type, check_types-own d cols vals)

All-split {κ μ} :
    {X : Type κ} (Holds : X → Type μ) (xs ys : List X)
    → All Holds (xs ++ ys)
    → All Holds xs × All Holds ys
All-split Holds [] ys h = (tt, h)
All-split Holds (x ∷ xs) ys (h, hs) = let (l, r) = All-split Holds xs ys hs in ((h, l), r)

check_bound-own :
    (d : TableDef) (vals : List Value)
    → map (col_type d) (key_cols d) ≡ map some (types_of vals)
    → check_bound d (key_cols d) (record { cols = key_cols d; vals = vals }) ≡ ok tt
unfolding check_bound
check_bound-own d vals own =
    rw (is_prefix_refl (key_cols d), check_types-own d (key_cols d) vals own) refl

-- Every column of the key has a value, so neither bound is padded.
encode_key_partial-full :
    (prefix : ℕ) (vals : List Value) (d : TableDef) (cols : List Bytes) (cmp : Cmp) (key : Bytes)
    → length cols ≤ length vals
    → encode_key prefix vals ≡ ok key
    → (cmp ≡ cmp_ge) ⊎ (cmp ≡ cmp_le)
    → encode_key_partial prefix vals d cols cmp ≡ ok key
unfolding encode_key_partial pad_cols
encode_key_partial-full prefix vals d cols cmp key full made (inl e) =
    rw (e, made) (ap ok (append-nil key))
encode_key_partial-full prefix vals d cols cmp key full made (inr e) =
    rw (e, made, drop_all (length vals) cols full) (ap ok (append-nil key))

-- The plan of db_get: the primary key's tree, from the row's key to the row's key.
plan_scan-key :
    (d : TableDef) (vals : List Value) (key : Bytes)
    → OwnTypes d
    → types_of vals ≡ take (key_count d) d.types
    → encode_key d.prefix vals ≡ ok key
    → plan_scan d cmp_ge cmp_le
        (record { cols = key_cols d; vals = vals })
        (record { cols = key_cols d; vals = vals })
      ≡ ok (record { tree = primary; key_start = key; key_end = key })
unfolding plan_scan find_index
plan_scan-key d vals key own types made =
    let bound = check_bound-own d vals (own ∙ ap (map some) (sym types)) in
    let same : length (key_cols d) ≡ length vals =
      sym (length-map (key_cols d) (col_type d))
      ∙ ap length own
      ∙ length-map (take (key_count d) d.types) some
      ∙ ap length (sym types)
      ∙ length-map vals (λ v. v.type) in
    let from =
      encode_key_partial-full d.prefix vals d (key_cols d) cmp_ge key (omega arith) made
        (inl refl) in
    let to =
      encode_key_partial-full d.prefix vals d (key_cols d) cmp_le key (omega arith) made
        (inr refl) in
    rw (is_prefix_refl (key_cols d), bound, from, to) refl

holds_at : (key : Bytes) → cmp_ok key cmp_le key ≡ true
unfolding cmp_ok
holds_at key = rw (lex_refl key) refl

-- The values that check_record takes out of a record have the types of their columns.
checked_types :
    (d : TableDef) (rec : Record) (n : ℕ) (vals : List Value)
    → length (take n d.cols) ≡ length (take n d.types)
    → check_record d rec n ≡ ok vals
    → types_of vals ≡ take n d.types
checked_types d rec n vals parallel checked =
    ((check_record_iff d rec n vals parallel).0 checked).0.1

module _ {S : Type 0} (api : Api S) (d : TableDef) where
  -- db_get of a record of the primary key, in any order of its columns, whose key the map has, decodes the
  -- pair that stands there.
  pub db_get-find :
      (rec : Record) (vals : List Value) (key v : Bytes) (s : S) (kvs : Pairs)
      → OwnTypes d
      → check_record d rec (key_count d) ≡ ok vals
      → encode_key d.prefix vals ≡ ok key
      → check_key_limit key ≡ ok tt
      → api.Stands s kvs
      → find key kvs ≡ some v
      → db_get api d rec s ≡ decode_row d key v
  unfolding db_get db_scan scan_valid deref_by
  db_get-find rec vals key v s kvs own checked made limit stands there =
      let (it, call, good, at) = api.seek-find s cmp_ge key v kvs stands limit there (inl refl) in
      let parallel : length (key_cols d) ≡ length (take (key_count d) d.types) =
        sym (length-map (key_cols d) (col_type d))
        ∙ ap length own
        ∙ length-map (take (key_count d) d.types) some in
      let types = checked_types d rec (key_count d) vals parallel checked in
      rw (checked, plan_scan-key d vals key own types made, call, good, at, holds_at key) refl

  -- The pair of a row decodes to it.
  decode_row-IsRow :
      (rec : Record) (vals : List Value) (key val : Bytes) (keys : List Bytes)
      → length d.cols ≡ length d.types
      → key_count d ≤ length d.cols
      → IsRow d rec vals key val keys
      → All IsStored vals
      → decode_row d key val ≡ ok (record { cols = d.cols; vals = vals })
  decode_row-IsRow rec vals key val keys parallel covered row are_stored =
      let all_cols = take_all (length d.cols) d.cols (omega arith) in
      let all_types = take_all (length d.cols) d.types (omega arith) in
      let types : types_of vals ≡ d.types =
        checked_types d rec (length d.cols) vals
          (ap length all_cols ∙ parallel ∙ ap length (sym all_types)) row.checked
        ∙ all_types in
      let whole = take-append-drop (key_count d) vals in
      let (front, back) =
        All-split IsStored (take (key_count d) vals) (drop (key_count d) vals)
          (subst (All IsStored) (sym whole) are_stored) in
      let sized : length vals ≡ length d.types =
        sym (length-map vals (λ v. v.type)) ∙ ap length types in
      let count : length (take (key_count d) vals) ≡ key_count d =
        length-take (key_count d) vals ∙ omega arith in
      let (k, v, key_made, val_made, decoded) =
        decode_row-encode_key d (take (key_count d) vals) (drop (key_count d) vals) front back
          (ap types_of whole ∙ types) count in
      let same_key : k ≡ key = ok-injective (sym key_made ∙ row.key_made) in
      let same_val : v ≡ val = ok-injective (sym val_made ∙ row.val_made) in
      subst (λ j. decode_row d j val ≡ ok (record { cols = d.cols; vals = vals })) same_key
        (subst (λ j. decode_row d k j ≡ ok (record { cols = d.cols; vals = vals })) same_val
          (decoded ∙ ap (λ l. ok (record { cols = d.cols; vals = l })) whole))

  -- For a table with a type for every column, whose key columns are each the first of their name, a new
  -- row of stored values, within the limits, with index keys that are not taken: db_update returns where
  -- the mode allows a new row, and db_get behind it returns the row for its primary key, every column in
  -- the table's order.
  pub db_get-db_update :
      (rec key_rec : Record) (vals : List Value) (key val : Bytes) (keys : List Bytes)
      (mode : UpdateMode) (s : S) (kvs : Pairs)
      → OwnTypes d
      → length d.cols ≡ length d.types
      → key_count d ≤ length d.cols
      → IsRow d rec vals key val keys
      → All IsStored vals
      → check_record d key_rec (key_count d) ≡ ok (take (key_count d) vals)
      → api.Stands s kvs
      → find key kvs ≡ none
      → Allows mode none
      → Fresh keys (put key val kvs)
      → (t : S) × (db_update api d rec mode s ≡ ok t)
        × (db_get api d key_rec t ≡ ok (record { cols = d.cols; vals = vals }))
  db_get-db_update rec key_rec vals key val keys mode s kvs own parallel covered row are_stored
        same_key stands new mode_allows fresh =
      let (t, call, after) =
        db_update-put api d rec vals key val keys mode s kvs row stands new mode_allows fresh in
      let there = find-put_keys key val keys (put key val kvs) (find-put_self key val kvs) fresh in
      let got =
        db_get-find key_rec (take (key_count d) vals) key val t (put_keys keys (put key val kvs))
          own same_key row.key_made (check_limit-key key val row.limit) after there in
      (t, call, got ∙ decode_row-IsRow rec vals key val keys parallel covered row are_stored)
