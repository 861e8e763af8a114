-- ===== src/Access/RowCodec/Bound.antt =====
-- The bounds of a range scan: an encoded key stands to an encoded bound as the row stands to the
-- bound's values, also where the bound names only the first columns.
use sqldb.Base.{
  ℕ, zero, suc, ◌≡◌, refl, ◌∙◌, ◌≢◌, inl, inr, Ordering, true, false, List, [], ◌∷◌, ◌++◌, some,
  drop, length, replicate, Bytes, Result, ok, lex, then_by, All, append_assoc, arith, Bool-cases,
  if◌then◌else◌, All-append,
}
use sqldb.Catalog.Value.{Value, IsStored, number, string, make_int64, make_bytes}
use sqldb.Catalog.TableDef.{TableDef}
use sqldb.Encoding.{push_shifted, bias, encode_int64, encode_bytes}
use sqldb.Encoding.Shape.{StartsBelow, encode_bytes-StartsBelow}
use sqldb.Encoding.Order.{image, images, values_order, SameTypes, encode_values-images, lex-images}
use sqldb.Storage.Cmp.{Cmp, cmp_ok, order_ok}
use sqldb.Access.RowCodec.{
  u32_be, encode_key, pad_type, pad_cols, col_type, wants_padding, encode_key_partial,
}

lex-append : (p a b : Bytes) → lex (p ++ a) (p ++ b) ≡ lex a b
unfolding lex
lex-append [] a b = refl
lex-append (c ∷ p) a b = ground (arith, lex-append p a b)

lex_nil : (s : Bytes) → lex s [] ≢ Ordering.lt
unfolding lex
lex_nil [] h = cc
lex_nil (c ∷ s) h = cc

-- Eight bytes 0xff are not below any eight bytes.
lex-replicate :
    (k u : ℕ) (r s : Bytes)
    → lex r s ≢ Ordering.gt
    → lex (push_shifted k u ++ r) (replicate k 0xff ++ s) ≢ Ordering.gt
unfolding lex push_shifted
lex-replicate zero u r s h = h
lex-replicate (suc k) u r s h = ground (arith, lex-replicate k u r s h)

lex-StartsBelow : (s r t : Bytes) → StartsBelow 0xff s → lex (s ++ r) (0xff ∷ t) ≢ Ordering.gt
unfolding lex
lex-StartsBelow [] r t h = absurd h
lex-StartsBelow (c ∷ s) r t h = ground arith

-- The columns have the types of the values.
abbrev pub Typed : TableDef → List Bytes → List Value → Type 0
Typed d [] [] = Unit
Typed d [] (v ∷ vs) = ⊥
Typed d (c ∷ cols) [] = ⊥
Typed d (c ∷ cols) (v ∷ vs) = (col_type d c ≡ some v.type) × Typed d cols vs

-- The padding is a bound from above for whatever the missing columns hold.
abbrev Pads : Bytes → Result Bytes → Type 0
Pads s r = (pad : Bytes) × (r ≡ ok pad) × (lex s pad ≢ Ordering.gt)

image-Pads :
    {v : Value} (s : Bytes) (later : Result Bytes)
    → IsStored v
    → Pads s later
    → Pads (image v.type v ++ s) (pad_type (some v.type) later)
unfolding image pad_type make_int64 make_bytes encode_int64
image-Pads s later (number n h) (pad, e, below) =
    (replicate 8 0xff ++ pad, rw e, lex-replicate 8 (bias n) s pad below)
image-Pads s later (string t h) p =
    (0xff ∷ [], refl, lex-StartsBelow (encode_bytes t) s [] (encode_bytes-StartsBelow t h))

pad_cols-Pads :
    (d : TableDef) (cols : List Bytes) (vs : List Value)
    → Typed d cols vs
    → All IsStored vs
    → Pads (images vs) (pad_cols d cols)
unfolding pad_cols images
pad_cols-Pads d [] [] t h = ([], refl, unfold lex in λ e. cc)
pad_cols-Pads d [] (v ∷ vs) t h = absurd t
pad_cols-Pads d (c ∷ cols) [] t h = absurd t
pad_cols-Pads d (c ∷ cols) (v ∷ vs) t h =
    rw t.0 (image-Pads (images vs) (pad_cols d cols) h.0 (pad_cols-Pads d cols vs t.1 h.1))

images-append : (us vs : List Value) → images (us ++ vs) ≡ images us ++ images vs
unfolding images
images-append [] vs = refl
images-append (u ∷ us) vs =
    rw (images-append us vs, append_assoc (image u.type u) (images us) (images vs))

pub encode_key-images :
    (prefix : ℕ) (vs : List Value)
    → All IsStored vs
    → encode_key prefix vs ≡ ok (u32_be prefix ++ images vs)
unfolding encode_key
encode_key-images prefix vs h = rw (encode_values-images vs h)

-- What stands behind the compared columns does not turn the relation.
order_ok_tail :
    (cmp : Cmp) (o x : Ordering)
    → (wants_padding cmp ≡ true → x ≢ Ordering.gt)
    → (wants_padding cmp ≡ false → x ≢ Ordering.lt)
    → order_ok cmp (then_by o x) ≡ order_ok cmp o
order_ok_tail cmp o x h k = ground arith

-- The padding that encode_key_partial adds, and how the rest of a key compares with it.
abbrev Padding : Cmp → Bytes → Result Bytes → Type 0
Padding cmp s r =
    (pad : Bytes) × (r ≡ ok pad)
    × (wants_padding cmp ≡ true → lex s pad ≢ Ordering.gt)
    × (wants_padding cmp ≡ false → lex s pad ≢ Ordering.lt)

wants_padding-Padding :
    (cmp : Cmp) (s : Bytes) (r : Result Bytes)
    → Pads s r
    → Padding cmp s (if wants_padding cmp then r else ok [])
wants_padding-Padding cmp s r (pad, e, below) = elim (Bool-cases (wants_padding cmp)) [
  | inl wants ↦ rw wants (pad, e, λ _. below, λ h. cc)
  | inr none_wanted ↦ rw none_wanted ([], refl, (λ h. cc), λ _. lex_nil s)
]

-- A row's key stands to the encoded bound as its first columns stand to the bound's values: for all
-- four relations, rows of stored values `us` and `rest` and a bound `ws` of the types of `us`, where
-- the columns of the tree behind the bound's have the types of `rest`.
pub encode_key_partial-order :
    (d : TableDef) (prefix : ℕ) (us rest ws : List Value) (index_cols : List Bytes) (cmp : Cmp)
    → All IsStored us
    → All IsStored rest
    → All IsStored ws
    → SameTypes us ws
    → Typed d (drop (length ws) index_cols) rest
    → (s : Bytes) × (t : Bytes) × (encode_key prefix (us ++ rest) ≡ ok s)
      × (encode_key_partial prefix ws d index_cols cmp ≡ ok t)
      × (cmp_ok s cmp t ≡ order_ok cmp (values_order us ws))
unfolding encode_key_partial cmp_ok
encode_key_partial-order d prefix us rest ws index_cols cmp hu hr hw same typed =
    let cols = drop (length ws) index_cols in
    let (pad, e, up, down) =
      wants_padding-Padding cmp (images rest) (pad_cols d cols)
        (pad_cols-Pads d cols rest typed hr) in
    let key = u32_be prefix ++ images (us ++ rest) in
    let bound = u32_be prefix ++ (images ws ++ pad) in
    let order : lex key bound ≡ then_by (values_order us ws) (lex (images rest) pad) =
      lex-append (u32_be prefix) (images (us ++ rest)) (images ws ++ pad)
      ∙ rw (images-append us rest) (lex-images us ws (images rest) pad hu hw same) in
    (
      key,
      bound,
      encode_key-images prefix (us ++ rest) (All-append IsStored us rest hu hr),
      rw (encode_key-images prefix ws hw, e, append_assoc (u32_be prefix) (images ws) pad),
      rw order (order_ok_tail cmp (values_order us ws) (lex (images rest) pad) up down),
    )
