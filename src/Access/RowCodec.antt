-- ===== src/Access/RowCodec.antt =====
-- include/access/row_codec.h and src/access/row_codec.cpp.
pub mod Bound
pub mod RoundTrip
pub mod Check
use sqldb.Base.{
  ℕ, zero, suc, ◌+◌, ◌/◌, ◌%◌, ◌^◌, Bool, true, false, ◌&&◌, ◌||◌, not, List, [], ◌∷◌, ◌++◌, Option,
  none, some, map, take, drop, length, get_elem?, replicate, Bytes, text, bytes_eq, if◌then◌else◌,
  Result, ok, stop, failed, thrown, asserted, invalid_argument, ◌>>=◌, ◌>>◌, ensure, or_stop,
}
use sqldb.Catalog.Value.{Value, ValueType, int_64, bytes, error, blank, type_eq}
use sqldb.Catalog.Record
use sqldb.Catalog.Record.{Record}
use sqldb.Catalog.TableDef.{TableDef, key_count}
use sqldb.Catalog.Schema.{col_index, contains}
use sqldb.Encoding.{encode_values, decode_values, has_bytes}
use sqldb.Storage.Cmp.{Cmp, cmp_ge, cmp_gt, cmp_lt, cmp_le}

-- append_u32_be, and internal_key's prefix in src/catalog/catalog.cpp.
unfoldable pub u32_be : ℕ → Bytes
u32_be v = (v / 2 ^ 24 % 256) ∷ (v / 2 ^ 16 % 256) ∷ (v / 2 ^ 8 % 256) ∷ (v % 256) ∷ []

-- typed_slots for the given column types.
unfoldable pub typed_slots : List ValueType → List Value
typed_slots = map blank

unfoldable pub encode_key : ℕ → List Value → Result Bytes
encode_key prefix vals = encode_values vals >>= λ s. ok (u32_be prefix ++ s)

-- The bytes that pad a column of the given type, and whether the loop goes on behind them.
unfoldable pub pad_type : Option ValueType → Result Bytes → Result Bytes
pad_type none later = stop asserted
pad_type (some int_64) later = later >>= λ s. ok (replicate 8 0xff ++ s)
pad_type (some bytes) later = ok (0xff ∷ [])
pad_type (some error) later =
    stop (thrown (invalid_argument (text "row_codec: cannot pad an ERROR column")))

-- The type of a column; a name that is no column of the table runs into the assert.
unfoldable pub col_type : TableDef → Bytes → Option ValueType
col_type d col = elim (col_index d col) [ none ↦ none | some at ↦ get_elem? d.types at ]

-- The loop of encode_key_partial over the columns that have no value.
unfoldable pub pad_cols : TableDef → List Bytes → Result Bytes
pad_cols d [] = ok []
pad_cols d (c ∷ cols) = pad_type (col_type d c) (pad_cols d cols)

-- `cmp == CMP_GT || cmp == CMP_LE`
abbrev pub wants_padding : Cmp → Bool
wants_padding cmp_gt = true
wants_padding cmp_le = true
wants_padding _ = false

unfoldable pub encode_key_partial : ℕ → List Value → TableDef → List Bytes → Cmp → Result Bytes
encode_key_partial prefix vals d index_cols cmp = do
  out ← encode_key prefix vals
  pad ← if wants_padding cmp then pad_cols d (drop (length vals) index_cols) else ok []
  ok (out ++ pad)

unfoldable pub decode_key : Bytes → List Value → Result (List Value)
decode_key key out =
    if has_bytes 4 key
    then decode_values (drop 4 key) out
    else stop (thrown (invalid_argument (text "row_codec: key is shorter than its table prefix")))

unfoldable pub decode_row : TableDef → Bytes → Bytes → Result Record
decode_row d key val = do
  pk_values ← decode_key key (typed_slots (take (key_count d) d.types))
  col_values ← decode_values val (typed_slots (drop (key_count d) d.types))
  ok (record { cols = d.cols; vals = pk_values ++ col_values })

-- The first loop of check_record, over the first n columns and their types.
unfoldable pub pick_values : Record → List Bytes → List ValueType → Result (List Value)
pick_values rec [] types = ok []
pick_values rec (c ∷ cols) [] = ok []
pick_values rec (c ∷ cols) (t ∷ types) = do
  v ← or_stop (Record.get rec c) (failed (text "missing column: " ++ c))
  ensure (type_eq v.type t) (failed (text "type mismatch for column: " ++ c))
  rest ← pick_values rec cols types
  ok (v ∷ rest)

-- The second loop: no column beyond the first n.
unfoldable pub only_cols : List Bytes → List Bytes → Result (Unit {0})
only_cols cols [] = ok tt
only_cols cols (c ∷ names) = do
  ensure (contains cols c) (failed (text "unexpected column: " ++ c))
  only_cols cols names

unfoldable pub check_record : TableDef → Record → ℕ → Result (List Value)
check_record d rec n = do
  vals ← pick_values rec (take n d.cols) (take n d.types)
  only_cols (take n d.cols) rec.cols
  ok vals
