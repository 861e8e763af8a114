-- ===== src/Encoding/Shape.antt =====
-- What bytes an escaped string can hold: no terminator, and no first byte 0xff, which the padding of
-- a range bound is reserved for.
use sqldb.Base.{ℕ, ◌<◌, [], ◌∷◌, Bytes, IsBytes, arith, All, ◌≢◌}
use sqldb.Encoding.{escape_chars, escape_string, starts_high, encode_bytes}

abbrev pub NoZero : Bytes → Type 0
NoZero = All (λ b. b ≢ 0)

pub escape_chars-NoZero : (s : Bytes) → NoZero (escape_chars s)
unfolding escape_chars
escape_chars-NoZero [] = tt
escape_chars-NoZero (c ∷ s) = ground (arith, escape_chars-NoZero s)

-- No byte of an escaped string is 0, the terminator.
pub escape_string-NoZero : (s : Bytes) → NoZero (escape_string s)
unfolding escape_string
escape_string-NoZero s = ground (arith, escape_chars-NoZero s)

-- There is a first byte, and it is below `n`.
abbrev pub StartsBelow : ℕ → Bytes → Type 0
StartsBelow n [] = ⊥
StartsBelow n (b ∷ s) = b < n

-- The encoding of a string has a first byte, and it is below 0xff, the byte that pads a range bound.
pub encode_bytes-StartsBelow : (s : Bytes) → IsBytes s → StartsBelow 0xff (encode_bytes s)
unfolding encode_bytes escape_string starts_high escape_chars
encode_bytes-StartsBelow [] h = omega arith
encode_bytes-StartsBelow (c ∷ s) h = ground arith
