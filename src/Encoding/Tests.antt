-- ===== src/Encoding/Tests.antt =====
-- Runs of the encoders and decoders at concrete values.
use sqldb.Base.{◌≡◌, refl, [], ◌∷◌, List, ℤ, negsuc, Bytes, lex, ok, arith}
use sqldb.Catalog.Value.{Value, make_int64, make_bytes, number, string}
use sqldb.Encoding.{bias, push_shifted, encode_int64, escape_string, encode_values, decode_values}
use sqldb.Encoding.Order.{values_order, encode_values-order}
use sqldb.Encoding.RoundTrip.{slots, decode_values-encode_values}

test_negative : encode_int64 (negsuc 0) ≡ 0x7f ∷ 0xff ∷ 0xff ∷ 0xff ∷ 0xff ∷ 0xff ∷ 0xff ∷ 0xff ∷ []
unfolding encode_int64 push_shifted bias
test_negative = refl

test_escape : escape_string (0 ∷ 1 ∷ 5 ∷ []) ≡ 1 ∷ 1 ∷ 1 ∷ 2 ∷ 5 ∷ []
unfolding escape_string
test_escape = refl

-- A row of a number and a string with a zero byte in it.
abbrev row : ℤ → Bytes → List Value
row n s = make_int64 n ∷ make_bytes s ∷ []

abbrev odd_bytes : Bytes
odd_bytes = 0 ∷ 255 ∷ []

encode_values-order_example :
    (s : Bytes) × (t : Bytes) × (encode_values (row (negsuc 4) odd_bytes) ≡ ok s)
    × (encode_values (row (negsuc 4) (1 ∷ [])) ≡ ok t)
    × (lex s t ≡ values_order (row (negsuc 4) odd_bytes) (row (negsuc 4) (1 ∷ [])))
unfolding make_bytes
encode_values-order_example =
    encode_values-order (row (negsuc 4) odd_bytes) (row (negsuc 4) (1 ∷ []))
      (number (negsuc 4) (omega arith), (string odd_bytes (omega arith), tt))
      (number (negsuc 4) (omega arith), (string (1 ∷ []) (omega arith), tt)) (refl, (refl, tt))

decode_values-encode_values_example :
    (s : Bytes) × (encode_values (row (negsuc 4) odd_bytes) ≡ ok s)
    × (decode_values s (slots (row (negsuc 4) odd_bytes)) ≡ ok (row (negsuc 4) odd_bytes))
decode_values-encode_values_example =
    decode_values-encode_values (row (negsuc 4) odd_bytes)
      (number (negsuc 4) (omega arith), (string odd_bytes (omega arith), tt))
