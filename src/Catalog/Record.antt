-- ===== src/Catalog/Record.antt =====
-- include/catalog/record.h and src/catalog/record.cpp. A Record's two vectors are parallel wherever
-- the program builds one; a name with no value beside it would be read out of range, and reads none.
use sqldb.Base.{ℤ, List, [], ◌∷◌, ◌++◌, Option, none, some, Bytes, bytes_eq, if◌then◌else◌}
use sqldb.Catalog.Value.{Value, make_int64, make_bytes}

pub record Record : Type 0 where
  pub cols : List Bytes
  pub vals : List Value

unfoldable pub empty : Record
empty = record { cols = []; vals = [] }

unfoldable pub add_str : Record → Bytes → Bytes → Record
add_str r col val = record { cols = r.cols ++ col ∷ []; vals = r.vals ++ make_bytes val ∷ [] }

unfoldable pub add_int64 : Record → Bytes → ℤ → Record
add_int64 r col val = record { cols = r.cols ++ col ∷ []; vals = r.vals ++ make_int64 val ∷ [] }

-- The loop of Record::get over both vectors.
unfoldable pub find_value : List Bytes → List Value → Bytes → Option Value
find_value [] vals col = none
find_value (c ∷ cols) [] col = none
find_value (c ∷ cols) (v ∷ vals) col =
    let rest = find_value cols vals col in if bytes_eq c col then some v else rest

unfoldable pub get : Record → Bytes → Option Value
get r col = find_value r.cols r.vals col
