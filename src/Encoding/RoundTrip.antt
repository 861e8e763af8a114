-- ===== src/Encoding/RoundTrip.antt =====
-- Decoding what was encoded gives it back, whatever bytes follow.
use native.Mathlib.Nat.{div-div-eq-div-mul, div-le_self}
use sqldb.Base.{
  ℕ, zero, suc, ◌+◌, ◌*◌, ◌/◌, ◌%◌, ◌^◌, ◌≤◌, ◌<◌, ◌≡◌, refl, List, [], ◌∷◌, ◌++◌, ℤ, pos, negsuc,
  Bytes, IsBytes, arith, ok, append_assoc, append-nil, All, map, true, ◌≢◌,
}
use sqldb.Catalog.Value.{Value, IsInt64, IsStored, number, string, make_int64, make_bytes, blank}
use sqldb.Encoding.{
  cons_to, bias, unbias, push_shifted, read_shifted, has_bytes, encode_int64, decode_int64,
  escape_chars, escape_string, unescape_chars, unescape_string, starts_high, has_prefix, drop_first,
  encode_bytes, split_zero, decode_bytes, encode_values, decode_value, decode_slots, decode_values,
}
use sqldb.Encoding.Shape.{NoZero, escape_string-NoZero}
use sqldb.Encoding.Order.{image, images, encode_values-images, shift_eight, bias-lt}

unbias-bias : (v : ℤ) → IsInt64 v → unbias (bias v) ≡ v
unfolding bias unbias
unbias-bias (pos n) h = ground arith
unbias-bias (negsuc n) h = ground arith

has_bytes-push_shifted : (k u : ℕ) (r : Bytes) → has_bytes k (push_shifted k u ++ r) ≡ true
unfolding has_bytes push_shifted
has_bytes-push_shifted zero u r = refl
has_bytes-push_shifted (suc k) u r = has_bytes-push_shifted k u r

-- The word that has been read is the high part of `u`, and it never leaves 64 bits.
read_shifted-push_shifted :
    (k u : ℕ) (r : Bytes)
    → u < 2 ^ 64
    → read_shifted k (u / 2 ^ (8 * k)) (push_shifted k u ++ r) ≡ (u, r)
unfolding read_shifted push_shifted
read_shifted-push_shifted zero u r h = ground arith
read_shifted-push_shifted (suc k) u r h = rw step (read_shifted-push_shifted k u r h)
  where
    step : u / 2 ^ (8 * suc k) * 256 % 2 ^ 64 + u / 2 ^ (8 * k) % 256 ≡ u / 2 ^ (8 * k)
    step =
        rw (shift_eight k, ← div-div-eq-div-mul u (2 ^ (8 * k)) 256)
          (omega (arith, div-le_self u (2 ^ (8 * k))))

-- decode_int64 reads the int64_t that encode_int64 wrote, whatever bytes follow, and goes on behind it.
pub decode_int64-encode_int64 :
    (v : ℤ) (r : Bytes) → IsInt64 v → decode_int64 (encode_int64 v ++ r) ≡ ok (v, r)
unfolding decode_int64 encode_int64
decode_int64-encode_int64 v r h =
    let zero_high : bias v / 2 ^ (8 * 8) ≡ 0 = omega (arith, bias-lt v) in
    rw (
      has_bytes-push_shifted 8 (bias v) r,
      rw zero_high at (read_shifted-push_shifted 8 (bias v) r (bias-lt v)),
      unbias-bias v h,
    )

unescape_chars_plain :
    (c : ℕ) (s : Bytes) → c ≢ 1 → unescape_chars (c ∷ s) ≡ cons_to c (unescape_chars s)
unfolding unescape_chars
unescape_chars_plain c [] h = ground arith
unescape_chars_plain c (d ∷ s) h = ground arith

unescape_chars_pair :
    (c : ℕ) (s : Bytes) → c ≤ 1 → unescape_chars (1 ∷ (c + 1) ∷ s) ≡ cons_to c (unescape_chars s)
unfolding unescape_chars
unescape_chars_pair c s h = ground arith

unescape_chars-escape_chars : (s : Bytes) → unescape_chars (escape_chars s) ≡ ok s
unfolding escape_chars
unescape_chars-escape_chars [] = unfold unescape_chars in refl
unescape_chars-escape_chars (c ∷ s) = ground (
  arith,
  unescape_chars_plain c (escape_chars s),
  unescape_chars_pair c (escape_chars s),
  unescape_chars-escape_chars s,
)

-- unescape_string is the inverse of escape_string on every byte string.
pub unescape_string-escape_string :
    (s : Bytes) → IsBytes s → unescape_string (escape_string s) ≡ ok s
unfolding unescape_string escape_string starts_high has_prefix drop_first
unescape_string-escape_string [] h = unfold escape_chars unescape_chars in refl
unescape_string-escape_string (c ∷ s) h =
    let back = unescape_chars-escape_chars (c ∷ s) in unfold escape_chars in ground (arith, back)

split_zero-append : (s r : Bytes) → NoZero s → split_zero (s ++ 0 ∷ r) ≡ ok (s, r)
unfolding split_zero
split_zero-append [] r h = refl
split_zero-append (c ∷ s) r h = ground (arith, split_zero-append s r)

-- decode_bytes reads the string that encode_bytes wrote, whatever bytes follow, and goes on behind its
-- terminator.
pub decode_bytes-encode_bytes :
    (s r : Bytes) → IsBytes s → decode_bytes (encode_bytes s ++ r) ≡ ok (s, r)
unfolding decode_bytes encode_bytes
decode_bytes-encode_bytes s r h = rw (
  append_assoc (escape_string s) (0 ∷ []) r,
  split_zero-append (escape_string s) r (escape_string-NoZero s),
  unescape_string-escape_string s h,
)

decode_value-image :
    {v : Value} (r : Bytes)
    → IsStored v
    → decode_value v.type (blank v.type) (image v.type v ++ r) ≡ ok (v, r)
unfolding decode_value image blank make_int64 make_bytes
decode_value-image r (number n h) = rw (decode_int64-encode_int64 n r h)
decode_value-image r (string s h) = rw (decode_bytes-encode_bytes s r h)

-- Slots for the types of the values, as typed_slots makes them.
abbrev pub slots : List Value → List Value
slots = map (λ v. blank v.type)

decode_slots-images :
    (vs : List Value) (r : Bytes)
    → All IsStored vs
    → decode_slots (slots vs) (images vs ++ r) ≡ ok (vs, r)
unfolding decode_slots images blank
decode_slots-images [] r h = refl
decode_slots-images (v ∷ vs) r h =
    rw (append_assoc (image v.type v) (images vs) r)
      (rw (decode_value-image (images vs ++ r) h.0, decode_slots-images vs r h.1))

pub decode_values-images :
    (vs : List Value) → All IsStored vs → decode_values (images vs) (slots vs) ≡ ok vs
unfolding decode_values
decode_values-images vs h = rw (rw (append-nil (images vs)) at (decode_slots-images vs [] h))

-- A row of stored values encodes, and decode_values into slots of its types gives the row back.
pub decode_values-encode_values :
    (vs : List Value)
    → All IsStored vs
    → (s : Bytes) × (encode_values vs ≡ ok s) × (decode_values s (slots vs) ≡ ok vs)
decode_values-encode_values vs h = (images vs, encode_values-images vs h, decode_values-images vs h)
