-- ===== src/Encoding.antt =====
-- include/encoding/order_preserving.h and src/encoding/order_preserving.cpp. The encoders append
-- to *out: here they return what they append. A decoder's `data` and `*pos` are one list, the bytes
-- from *pos on, and it returns its value with the bytes from the new *pos on.
pub mod Order
pub mod RoundTrip
pub mod Shape
mod Tests
use sqldb.Base.{
  ℕ, zero, suc, ◌+◌, ◌-◌, ◌*◌, ◌/◌, ◌%◌, ◌^◌, Bool, ◌&&◌, ◌||◌, not, List, [], ◌∷◌, ◌++◌, ℤ, pos,
  negsuc, Bytes, text, ltb, leb, ◌==◌, if◌then◌else◌, Result, ok, stop, thrown, invalid_argument,
  ◌>>=◌,
}
use sqldb.Catalog.Value.{Value, ValueType, error, int_64, bytes}

abbrev pub sign_bit : ℕ
sign_bit = 2 ^ 63

-- static_cast<uint64_t>(v) + SIGN_BIT, which wraps.
unfoldable pub bias : ℤ → ℕ
bias (pos n) = (n % 2 ^ 64 + sign_bit) % 2 ^ 64
bias (negsuc n) = (2 ^ 64 - 1 - n % 2 ^ 64 + sign_bit) % 2 ^ 64

-- static_cast<int64_t>(u - SIGN_BIT), which wraps.
unfoldable pub unbias : ℕ → ℤ
unbias u =
    let w = (u + 2 ^ 64 - sign_bit) % 2 ^ 64 in
    if ltb w sign_bit then pos w else negsuc (2 ^ 64 - 1 - w)

-- The loop over `shift`, with `k` rounds left: shift is 8 * (k - 1), and the cast keeps a byte.
unfoldable pub push_shifted : ℕ → ℕ → Bytes
push_shifted zero u = []
push_shifted (suc k) u = (u / 2 ^ (8 * k) % 256) ∷ push_shifted k u

unfoldable pub encode_int64 : ℤ → Bytes
encode_int64 v = push_shifted 8 (bias v)

-- `u = (u << 8) | byte`, `k` times; the low eight bits of the shifted word are 0, so that | adds.
-- The caller has seen that `k` bytes are there.
unfoldable pub read_shifted : ℕ → ℕ → Bytes → ℕ × Bytes
read_shifted zero u s = (u, s)
read_shifted (suc k) u [] = (u, [])
read_shifted (suc k) u (b ∷ s) = read_shifted k (u * 256 % 2 ^ 64 + b) s

-- `*pos + n <= data.size()`
unfoldable pub has_bytes : ℕ → Bytes → Bool
has_bytes zero s = Bool.true
has_bytes (suc n) [] = Bool.false
has_bytes (suc n) (b ∷ s) = has_bytes n s

unfoldable pub decode_int64 : Bytes → Result (ℤ × Bytes)
decode_int64 s =
    let (u, rest) = read_shifted 8 0 s in
    if has_bytes 8 s
    then ok (unbias u, rest)
    else stop (thrown (invalid_argument (text "order_preserving: truncated int64")))

-- The loop of escape_string.
unfoldable pub escape_chars : Bytes → Bytes
escape_chars [] = []
escape_chars (c ∷ s) =
    let rest = escape_chars s in if leb c 0x01 then 0x01 ∷ (c + 1) ∷ rest else c ∷ rest

-- `!s.empty() && s[0] >= 0xfe`
unfoldable pub starts_high : Bytes → Bool
starts_high [] = Bool.false
starts_high (c ∷ s) = leb 0xfe c

unfoldable pub escape_string : Bytes → Bytes
unfolding starts_high escape_chars
escape_string s = if starts_high s then 0xfe ∷ escape_chars s else escape_chars s

abbrev pub bad_escape {ℓ} : {A : Type ℓ} → Result A
bad_escape = stop (thrown (invalid_argument (text "order_preserving: bad escape sequence")))

abbrev pub cons_to : ℕ → Result Bytes → Result Bytes
cons_to c r = r >>= λ s. ok (c ∷ s)

-- The loop of unescape_string.
unfoldable pub unescape_chars : Bytes → Result Bytes
unescape_chars [] = ok []
unescape_chars (c ∷ []) = if c == 0x01 then bad_escape else ok (c ∷ [])
unescape_chars (c ∷ d ∷ s) =
    let plain = cons_to c (unescape_chars (d ∷ s)) in
    let pair = cons_to (d - 1) (unescape_chars s) in
    if not (c == 0x01) then plain else if d == 0x01 || d == 0x02 then pair else bad_escape

-- `s[0] == 0xfe`, and there is an s[1] >= 0xfe.
unfoldable pub has_prefix : Bytes → Bool
unfolding starts_high
has_prefix [] = Bool.false
has_prefix (c ∷ s) = c == 0xfe && starts_high s

unfoldable pub drop_first : Bytes → Bytes
drop_first [] = []
drop_first (c ∷ s) = s

unfoldable pub unescape_string : Bytes → Result Bytes
unfolding starts_high has_prefix drop_first unescape_chars
unescape_string s =
    if not (starts_high s)
    then unescape_chars s
    else if has_prefix s
    then unescape_chars (drop_first s)
    else bad_escape

unfoldable pub encode_bytes : Bytes → Bytes
encode_bytes s = escape_string s ++ 0x00 ∷ []

-- data.find('\0', *pos): what stands before the zero and what stands after it.
unfoldable pub split_zero : Bytes → Result (Bytes × Bytes)
split_zero [] = stop (thrown (invalid_argument (text "order_preserving: unterminated bytes")))
split_zero (c ∷ s) =
    let later = split_zero s >>= λ p. ok (c ∷ p.0, p.1) in if c == 0x00 then ok ([], s) else later

unfoldable pub decode_bytes : Bytes → Result (Bytes × Bytes)
decode_bytes data' = do
  (escaped, rest) ← split_zero data'
  s ← unescape_string escaped
  ok (s, rest)

-- One round of the loop of encode_values, by the type of the value.
unfoldable pub encode_value : ValueType → Value → Result Bytes
encode_value int_64 v = ok (encode_int64 v.int64)
encode_value bytes v = ok (encode_bytes v.str)
encode_value error v =
    stop (thrown (invalid_argument (text "order_preserving: cannot encode an ERROR value")))

unfoldable pub encode_values : List Value → Result Bytes
encode_values [] = ok []
encode_values (v ∷ vs) = do
  front ← encode_value v.type v
  back ← encode_values vs
  ok (front ++ back)

-- One round of the loop of decode_values, into the slot `v`.
unfoldable pub decode_value : ValueType → Value → Bytes → Result (Value × Bytes)
decode_value int_64 v s = do (n, rest) ← decode_int64 s; ok (record v { int64 = n }, rest)
decode_value bytes v s = do (t, rest) ← decode_bytes s; ok (record v { str = t }, rest)
decode_value error v s =
    stop (thrown (invalid_argument (text "order_preserving: cannot decode into an ERROR slot")))

unfoldable pub decode_slots : List Value → Bytes → Result (List Value × Bytes)
decode_slots [] s = ok ([], s)
decode_slots (v ∷ vs) s = do
  (w, rest) ← decode_value v.type v s
  (ws, end) ← decode_slots vs rest
  ok (w ∷ ws, end)

abbrev pub at_end : List Value → Bytes → Result (List Value)
at_end vs [] = ok vs
at_end vs (b ∷ s) =
    stop (thrown (invalid_argument (text "order_preserving: trailing bytes after the last value")))

unfoldable pub decode_values : Bytes → List Value → Result (List Value)
decode_values data' out = do (vs, rest) ← decode_slots out data'; at_end vs rest
