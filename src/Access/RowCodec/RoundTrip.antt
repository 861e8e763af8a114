-- ===== src/Access/RowCodec/RoundTrip.antt =====
-- A row that was encoded as a key and a value is decoded as it was.
use sqldb.Base.{ℕ, ◌≡◌, refl, ap, List, [], ◌∷◌, ◌++◌, map, take, drop, length, Bytes, ok, All}
use sqldb.Catalog.Value.{Value, ValueType, blank, IsStored}
use sqldb.Catalog.TableDef.{TableDef, key_count}
use sqldb.Encoding.{encode_values, has_bytes}
use sqldb.Encoding.Order.{images, encode_values-images}
use sqldb.Encoding.RoundTrip.{slots, decode_values-images}
use sqldb.Access.RowCodec.{u32_be, typed_slots, encode_key, decode_key, decode_row}
use sqldb.Access.RowCodec.Bound.{encode_key-images}

abbrev pub types_of : List Value → List ValueType
types_of = map (λ v. v.type)

slots-types_of : (vs : List Value) → typed_slots (types_of vs) ≡ slots vs
unfolding typed_slots
slots-types_of [] = refl
slots-types_of (v ∷ vs) = ap (◌∷◌ (blank v.type)) (slots-types_of vs)

-- decode_key skips the prefix and reads the values back.
pub decode_key-encode_key :
    (prefix : ℕ) (vs : List Value)
    → All IsStored vs
    → (s : Bytes) × (encode_key prefix vs ≡ ok s)
      × (decode_key s (typed_slots (types_of vs)) ≡ ok vs)
unfolding decode_key
decode_key-encode_key prefix vs h = (
  u32_be prefix ++ images vs,
  encode_key-images prefix vs h,
  rw (slots-types_of vs) (unfold u32_be has_bytes in decode_values-images vs h),
)

take-types : (ks cs : List Value) → take (length ks) (types_of (ks ++ cs)) ≡ types_of ks
take-types [] cs = refl
take-types (k ∷ ks) cs = ap (◌∷◌ k.type) (take-types ks cs)

drop-types : (ks cs : List Value) → drop (length ks) (types_of (ks ++ cs)) ≡ types_of cs
drop-types [] cs = refl
drop-types (k ∷ ks) cs = drop-types ks cs

-- A row of stored values that has the table's column types, split behind its primary key: its key
-- and its value are encoded, and decode_row gives every column back in the table's order.
pub decode_row-encode_key :
    (d : TableDef) (keys cols : List Value)
    → All IsStored keys
    → All IsStored cols
    → types_of (keys ++ cols) ≡ d.types
    → length keys ≡ key_count d
    → (s : Bytes) × (t : Bytes) × (encode_key d.prefix keys ≡ ok s)
      × (encode_values cols ≡ ok t)
      × (decode_row d s t ≡ ok (record { cols = d.cols; vals = keys ++ cols }))
unfolding decode_row
decode_row-encode_key d keys cols hk hc types count =
    let (s, e, back) = decode_key-encode_key d.prefix keys hk in
    let front : take (key_count d) d.types ≡ types_of keys =
      rw (← types, ← count) (take-types keys cols) in
    let rear : drop (key_count d) d.types ≡ types_of cols =
      rw (← types, ← count) (drop-types keys cols) in
    (
      s,
      images cols,
      e,
      encode_values-images cols hc,
      rw (front, rear, back, slots-types_of cols, decode_values-images cols hc),
    )
