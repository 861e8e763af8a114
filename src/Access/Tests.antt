-- ===== src/Access/Tests.antt =====
-- A table whose primary key is two columns, with an index that starts as the key does.
use sqldb.Base.{
  ◌≡◌, ◌≢◌, ◌↔◌, refl, true, [], ◌∷◌, ◌++◌, List, pos, Bytes, bytes_eq, text, ok, arith, All,
}
use sqldb.Catalog.Value.{Value, int_64, bytes, make_int64, make_bytes, number, string, IsStored}
use sqldb.Catalog.Record.{Record}
use sqldb.Catalog.TableDef.{TableDef}
use sqldb.Catalog.Schema.{contains, col_index, position}
use sqldb.Encoding.{encode_values, encode_value, encode_int64, bias, push_shifted}
use sqldb.Encoding.Order.{values_order}
use sqldb.Storage.Cmp.{cmp_ge, cmp_gt, cmp_le, cmp_ok, order_ok}
use sqldb.Access.RowCodec.{
  encode_key, encode_key_partial, decode_row, check_record, col_type, pad_cols, pad_type, u32_be,
}
use sqldb.Access.RowCodec.Bound.{encode_key_partial-order}
use sqldb.Access.RowCodec.RoundTrip.{decode_row-encode_key}
use sqldb.Access.RowCodec.Check.{Picks, check_record_iff}
use sqldb.Access.Table.{
  primary, secondary, is_prefix, find_index, shortest, check_bound, check_types, plan_scan,
  ScanPlan,
}
use sqldb.Access.Table.Choice.{plan_scan_unserved}

abbrev events : TableDef
events = record {
  name = text "events";
  types = int_64 ∷ int_64 ∷ bytes ∷ int_64 ∷ [];
  cols = text "a" ∷ text "b" ∷ text "c" ∷ text "d" ∷ [];
  pkeys = pos 2;
  indexes = (text "a" ∷ text "c" ∷ text "b" ∷ []) ∷ [];
  prefix = 100;
  index_prefixes = 101 ∷ [];
}

one : IsStored (make_int64 (pos 1))
one = number (pos 1) (omega arith)

two : IsStored (make_int64 (pos 2))
two = number (pos 2) (omega arith)

hi : IsStored (make_bytes (text "hi"))
hi = string (text "hi") (omega arith)

-- All rows with a > 1, as the index on (a, c, b) finds them.
encode_key_partial-order_example :
    (s : Bytes) × (t : Bytes) × (encode_key 101
        (make_int64 (pos 2) ∷ make_bytes (text "hi") ∷ make_int64 (pos 1) ∷ [])
      ≡ ok s)
    × (encode_key_partial 101
          (make_int64 (pos 1) ∷ [])
          events
          (text "a" ∷ text "c" ∷ text "b" ∷ [])
          cmp_gt
        ≡ ok t)
    × (cmp_ok s cmp_gt t
        ≡ order_ok cmp_gt (values_order (make_int64 (pos 2) ∷ []) (make_int64 (pos 1) ∷ [])))
unfolding col_type col_index position bytes_eq make_int64 make_bytes
encode_key_partial-order_example =
    encode_key_partial-order events 101 (make_int64 (pos 2) ∷ [])
      (make_bytes (text "hi") ∷ make_int64 (pos 1) ∷ []) (make_int64 (pos 1) ∷ [])
      (text "a" ∷ text "c" ∷ text "b" ∷ []) cmp_gt (two, tt) (hi, (one, tt)) (one, tt) (refl, tt)
      (refl, (refl, tt))

abbrev key : List Value
key = make_int64 (pos 1) ∷ make_int64 (pos 2) ∷ []

abbrev rest : List Value
rest = make_bytes (text "hi") ∷ make_int64 (pos 1) ∷ []

decode_row-encode_key_example :
    (s : Bytes) × (t : Bytes) × (encode_key 100 key ≡ ok s)
    × (encode_values rest ≡ ok t)
    × (decode_row events s t ≡ ok (record { cols = events.cols; vals = key ++ rest }))
unfolding make_int64 make_bytes
decode_row-encode_key_example =
    decode_row-encode_key events key rest (one, (two, tt)) (hi, (one, tt)) refl refl

abbrev whole : Record
whole = record {
  cols = text "b" ∷ text "a" ∷ [];
  vals = make_int64 (pos 2) ∷ make_int64 (pos 1) ∷ [];
}

check_record_iff_example : (check_record events whole 2 ≡ ok key) ↔ (
    Picks whole (text "a" ∷ text "b" ∷ []) (int_64 ∷ int_64 ∷ []) key
    × All (λ c. contains (text "a" ∷ text "b" ∷ []) c ≡ true) whole.cols)
check_record_iff_example = check_record_iff events whole 2 key refl

test_choice :
    find_index events (text "a" ∷ text "c" ∷ [])
    ≡ ok (secondary 0 (text "a" ∷ text "c" ∷ text "b" ∷ []))
unfolding find_index shortest is_prefix bytes_eq
test_choice = refl

-- a = 1, as plan_scan gets it for the primary key.
abbrev at_one : Record
at_one = record { cols = text "a" ∷ []; vals = make_int64 (pos 1) ∷ [] }

abbrev plan : ScanPlan
plan = record {
  tree = primary;
  key_start = 0 ∷ 0 ∷ 0 ∷ 100 ∷ 128 ∷ 0 ∷ 0 ∷ 0 ∷ 0 ∷ 0 ∷ 0 ∷ 1 ∷ [];
  key_end =
      0 ∷ 0 ∷ 0 ∷ 100 ∷ 128 ∷ 0 ∷ 0 ∷ 0 ∷ 0 ∷ 0 ∷ 0 ∷ 1 ∷ 255 ∷ 255 ∷ 255 ∷ 255 ∷ 255 ∷ 255 ∷ 255
      ∷ 255 ∷ [];
}

test_plan : plan_scan events cmp_ge cmp_le at_one at_one ≡ ok plan
unfolding plan_scan find_index is_prefix bytes_eq check_bound check_types col_type col_index
    position make_int64 encode_key_partial encode_key encode_values encode_value pad_cols pad_type
    u32_be encode_int64 bias push_shifted
test_plan = refl

-- a = 1 and c <= "hi": the index on (a, c, b) serves the range, and is not chosen.
abbrev up_to_hi : Record
up_to_hi = record {
  cols = text "a" ∷ text "c" ∷ [];
  vals = make_int64 (pos 1) ∷ make_bytes (text "hi") ∷ [];
}

plan_scan_unserved_example : plan_scan events cmp_ge cmp_le at_one up_to_hi ≢ ok plan
unfolding is_prefix bytes_eq
plan_scan_unserved_example = plan_scan_unserved events cmp_ge cmp_le at_one up_to_hi plan refl refl
