-- ===== src/Catalog/Value.antt =====
-- include/catalog/value.h and src/catalog/value.cpp.
use sqldb.Base.{
  ◌^◌, ◌<◌, Bool, true, false, ◌&&◌, [], ℤ, pos, negsuc, Bytes, bytes_eq, IsBytes, ◌==◌,
}

pub data ValueType : Type 0 where
  error int_64 bytes : ValueType

-- A tagged union: only the field matching `type` is meaningful.
pub record Value : Type 0 where
  pub type : ValueType
  pub int64 : ℤ
  pub str : Bytes

-- `Value{.type = t}`: the other fields have their defaults.
unfoldable pub blank : ValueType → Value
blank t = record { type = t; int64 = pos 0; str = [] }

unfoldable pub make_int64 : ℤ → Value
make_int64 v = record { type = int_64; int64 = v; str = [] }

unfoldable pub make_bytes : Bytes → Value
make_bytes v = record { type = bytes; int64 = pos 0; str = v }

-- operator== of int64_t.
abbrev pub int_eq : ℤ → ℤ → Bool
int_eq (pos a) (pos b) = a == b
int_eq (pos a) (negsuc b) = false
int_eq (negsuc a) (pos b) = false
int_eq (negsuc a) (negsuc b) = a == b

abbrev pub type_eq : ValueType → ValueType → Bool
type_eq error error = true
type_eq int_64 int_64 = true
type_eq bytes bytes = true
type_eq _ _ = false

value_eq_as : ValueType → Value → Value → Bool
value_eq_as int_64 a b = int_eq a.int64 b.int64
value_eq_as bytes a b = bytes_eq a.str b.str
value_eq_as error a b = true

-- Value::operator==
unfoldable pub value_eq : Value → Value → Bool
unfolding value_eq_as
value_eq a b = type_eq a.type b.type && value_eq_as a.type a b

-- The range of int64_t.
abbrev pub IsInt64 : ℤ → Type 0
IsInt64 (pos n) = n < 2 ^ 63
IsInt64 (negsuc n) = n < 2 ^ 63

-- What a column can hold: the values that the two factories make.
pub data IsStored : Value → Type 0 where
  number : (n : ℤ) → IsInt64 n → IsStored (make_int64 n)
  string : (s : Bytes) → IsBytes s → IsStored (make_bytes s)
