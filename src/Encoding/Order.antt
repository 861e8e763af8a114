-- ===== src/Encoding/Order.antt =====
-- Comparing encoded bytes is comparing the values: the property that order_preserving.h is for.
use native.Mathlib.Nat.{
  div-div-eq-div-mul, div-zero, mul-le-mul_right, div-mul-le_self, lt-div-mul-add,
}
use native.Mathlib.Numerals.{towards_suc}
use sqldb.Base.{
  ℕ, zero, suc, ◌+◌, ◌*◌, ◌/◌, ◌^◌, ◌<◌, ◌≡◌, refl, sym, ◌∙◌, List, [], ◌∷◌, ◌++◌, ℤ, pos, negsuc,
  pos_part, neg_part, Bytes, IsBytes, compare, Ordering, lex, then_by, arith, ok, append_assoc,
  append-nil, All,
}
use sqldb.Catalog.Value.{
  Value, ValueType, error, int_64, bytes, IsInt64, IsStored, number, string, make_int64, make_bytes,
}
use sqldb.Encoding.{
  bias, push_shifted, encode_int64, escape_chars, escape_string, starts_high, encode_bytes,
  encode_value, encode_values,
}

-- The order of the integers.
abbrev pub int_order : ℤ → ℤ → Ordering
int_order a b = compare (pos_part a + neg_part b) (pos_part b + neg_part a)

bias-order : (a b : ℤ) → IsInt64 a → IsInt64 b → compare (bias a) (bias b) ≡ int_order a b
unfolding bias
bias-order (pos a) (pos b) ha hb = ground arith
bias-order (pos a) (negsuc b) ha hb = ground arith
bias-order (negsuc a) (pos b) ha hb = ground arith
bias-order (negsuc a) (negsuc b) ha hb = ground arith

pub shift_eight : (k : ℕ) → 2 ^ (8 * suc k) ≡ 2 ^ (8 * k) * 256
shift_eight k = let e : 8 * suc k ≡ 8 * k + 8 = omega arith in rw e (simp towards_suc (omega arith))

div-lt→lt : (u v d : ℕ) → u / d < v / d → u < v
div-lt→lt u v zero h = absurd (omega (arith, div-zero u, div-zero v))
div-lt→lt u v (suc d) h = omega (
  arith,
  mul-le-mul_right (suc d) h,
  div-mul-le_self v (suc d),
  lt-div-mul-add {a = u} {b = suc d} (omega arith),
)

lex-push_shifted :
    (k u v : ℕ) (r s : Bytes)
    → u / 2 ^ (8 * k) ≡ v / 2 ^ (8 * k)
    → lex (push_shifted k u ++ r) (push_shifted k v ++ s) ≡ then_by (compare u v) (lex r s)
unfolding push_shifted lex
lex-push_shifted zero u v r s h = ground arith
lex-push_shifted (suc k) u v r s h = ground (
  arith,
  high,
  lex-push_shifted k u v r s,
  div-lt→lt u v (2 ^ (8 * k)),
  div-lt→lt v u (2 ^ (8 * k)),
)
  where
    high : u / 2 ^ (8 * k) / 256 ≡ v / 2 ^ (8 * k) / 256
    high =
        div-div-eq-div-mul u (2 ^ (8 * k)) 256
        ∙ (rw (← shift_eight k) h)
        ∙ sym (div-div-eq-div-mul v (2 ^ (8 * k)) 256)

pub bias-lt : (a : ℤ) → bias a < 2 ^ 64
unfolding bias
bias-lt (pos a) = omega arith
bias-lt (negsuc a) = omega arith

-- Encoded integers compare as the integers do, whatever follows them.
pub lex-encode_int64 :
    (a b : ℤ) (r s : Bytes)
    → IsInt64 a
    → IsInt64 b
    → lex (encode_int64 a ++ r) (encode_int64 b ++ s) ≡ then_by (int_order a b) (lex r s)
unfolding encode_int64
lex-encode_int64 a b r s ha hb =
    rw (← bias-order a b ha hb)
      (lex-push_shifted 8 (bias a) (bias b) r s (omega (arith, bias-lt a, bias-lt b)))

lex-escape_chars :
    (a b r s : Bytes)
    → lex (escape_chars a ++ 0 ∷ r) (escape_chars b ++ 0 ∷ s) ≡ then_by (lex a b) (lex r s)
unfolding lex escape_chars
lex-escape_chars [] [] r s = refl
lex-escape_chars [] (d ∷ b) r s = ground arith
lex-escape_chars (c ∷ a) [] r s = ground arith
lex-escape_chars (c ∷ a) (d ∷ b) r s = ground (arith, lex-escape_chars a b r s)

lex-escape_string :
    (a b r s : Bytes)
    → IsBytes a
    → IsBytes b
    → lex (escape_string a ++ 0 ∷ r) (escape_string b ++ 0 ∷ s) ≡ then_by (lex a b) (lex r s)
unfolding escape_string starts_high escape_chars lex
lex-escape_string [] [] r s ha hb = lex-escape_chars [] [] r s
lex-escape_string [] (d ∷ b) r s ha hb = ground arith
lex-escape_string (c ∷ a) [] r s ha hb = ground arith
lex-escape_string (c ∷ a) (d ∷ b) r s ha hb = ground (arith, lex-escape_chars a b r s)

lex-encode_bytes :
    (a b r s : Bytes)
    → IsBytes a
    → IsBytes b
    → lex (encode_bytes a ++ r) (encode_bytes b ++ s) ≡ then_by (lex a b) (lex r s)
unfolding encode_bytes
lex-encode_bytes a b r s ha hb =
    rw (append_assoc (escape_string a) (0 ∷ []) r, append_assoc (escape_string b) (0 ∷ []) s)
      (lex-escape_string a b r s ha hb)

then_by_assoc : (o p q : Ordering) → then_by o (then_by p q) ≡ then_by (then_by o p) q
then_by_assoc o p q = ground arith

then_by_eq : (o : Ordering) → then_by o (lex [] []) ≡ o
unfolding lex
then_by_eq o = ground arith

-- The order of the values of one type, as the query language compares them.
unfoldable pub value_order : ValueType → Value → Value → Ordering
value_order int_64 v w = int_order v.int64 w.int64
value_order bytes v w = lex v.str w.str
value_order error v w = lex v.str w.str

-- Rows compare by their first column that differs.
unfoldable pub values_order : List Value → List Value → Ordering
unfolding value_order
values_order [] [] = Ordering.eq
values_order [] (w ∷ ws) = Ordering.lt
values_order (v ∷ vs) [] = Ordering.gt
values_order (v ∷ vs) (w ∷ ws) = then_by (value_order v.type v w) (values_order vs ws)

-- What encode_value appends for a value that is no ERROR.
unfoldable pub image : ValueType → Value → Bytes
image int_64 v = encode_int64 v.int64
image bytes v = encode_bytes v.str
image error v = []

unfoldable pub images : List Value → Bytes
unfolding image
images [] = []
images (v ∷ vs) = image v.type v ++ images vs

encode_value-image : {v : Value} → IsStored v → encode_value v.type v ≡ ok (image v.type v)
unfolding image encode_value make_int64 make_bytes
encode_value-image (number n h) = refl
encode_value-image (string s h) = refl

pub encode_values-images : (vs : List Value) → All IsStored vs → encode_values vs ≡ ok (images vs)
unfolding images encode_values
encode_values-images [] h = refl
encode_values-images (v ∷ vs) h =
    ground (arith, encode_value-image h.0, encode_values-images vs h.1)

lex-image :
    {v w : Value} (r s : Bytes)
    → IsStored v
    → IsStored w
    → v.type ≡ w.type
    → lex (image v.type v ++ r) (image w.type w ++ s) ≡ then_by (value_order v.type v w) (lex r s)
unfolding image value_order make_int64 make_bytes
lex-image r s (number a ha) (number b hb) e = lex-encode_int64 a b r s ha hb
lex-image r s (number a ha) (string b hb) e = cc
lex-image r s (string a ha) (number b hb) e = cc
lex-image r s (string a ha) (string b hb) e = lex-encode_bytes a b r s ha hb

-- Two rows have the same column types.
abbrev pub SameTypes : List Value → List Value → Type 0
SameTypes [] [] = Unit
SameTypes [] (w ∷ ws) = ⊥
SameTypes (v ∷ vs) [] = ⊥
SameTypes (v ∷ vs) (w ∷ ws) = (v.type ≡ w.type) × SameTypes vs ws

pub lex-images :
    (vs ws : List Value) (r s : Bytes)
    → All IsStored vs
    → All IsStored ws
    → SameTypes vs ws
    → lex (images vs ++ r) (images ws ++ s) ≡ then_by (values_order vs ws) (lex r s)
unfolding images values_order
lex-images [] [] r s hv hw e = refl
lex-images [] (w ∷ ws) r s hv hw e = absurd e
lex-images (v ∷ vs) [] r s hv hw e = absurd e
lex-images (v ∷ vs) (w ∷ ws) r s hv hw e =
    rw (append_assoc (image v.type v) (images vs) r, append_assoc (image w.type w) (images ws) s)
      (lex-image (images vs ++ r) (images ws ++ s) hv.0 hw.0 e.0
        ∙ rw (lex-images vs ws r s hv.1 hw.1 e.1)
            (then_by_assoc (value_order v.type v w) (values_order vs ws) (lex r s)))

-- Two rows of stored values with the same column types encode, and std::string::compare of the two
-- encodings is the comparison of the rows, column by column, by value.
pub encode_values-order :
    (vs ws : List Value)
    → All IsStored vs
    → All IsStored ws
    → SameTypes vs ws
    → (s : Bytes) × (t : Bytes) × (encode_values vs ≡ ok s)
      × (encode_values ws ≡ ok t)
      × (lex s t ≡ values_order vs ws)
encode_values-order vs ws hv hw e = (
  images vs,
  images ws,
  encode_values-images vs hv,
  encode_values-images ws hw,
  rw (append-nil (images vs), append-nil (images ws)) at (lex-images vs ws [] [] hv hw e)
      ∙ then_by_eq (values_order vs ws),
)
