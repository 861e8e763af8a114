-- ===== src/Catalog/TextForm.antt =====
-- src/catalog/tabledef.cpp: the text that @table holds for a definition. An output stream is the text
-- written to it, an input stream the text that is still to be read, and none is a failed read.
pub mod Stream
pub mod Numbers
pub mod RoundTrip
use sqldb.Base.{ℕ, zero, suc, ◌+◌, ◌^◌, List, [], ◌∷◌, ◌++◌, Option, none, some, Bytes, length}
use sqldb.Catalog.Value.{ValueType, error, int_64, bytes}
use sqldb.Catalog.TableDef.{TableDef}
use Stream.{show_nat, show_int, get_line, read_word, read_int, read_unsigned, ignore, ◌>>=◌}

-- static_cast<uint32_t>(type)
unfoldable pub type_number : ValueType → ℕ
type_number error = 0
type_number int_64 = 1
type_number bytes = 2

-- static_cast<ValueType>(type_raw). No other number is written; it would make a value that is none
-- of the enumerators, and is refused here.
unfoldable pub number_type : ℕ → Option ValueType
number_type zero = some error
number_type (suc zero) = some int_64
number_type (suc (suc zero)) = some bytes
number_type _ = none

unfoldable pub encode_cols : List Bytes → List ValueType → Bytes
encode_cols [] types = []
encode_cols (c ∷ cols) [] = []
encode_cols (c ∷ cols) (t ∷ types) =
    c ++ (b' ' ∷ (show_nat (type_number t) ++ (10 ∷ encode_cols cols types)))

-- The columns of one index, each behind a space.
unfoldable pub encode_words : List Bytes → Bytes
encode_words [] = []
encode_words (c ∷ cols) = b' ' ∷ (c ++ encode_words cols)

unfoldable pub encode_indexes : List (List Bytes) → Bytes
encode_indexes [] = []
encode_indexes (index ∷ indexes) =
    show_nat (length index) ++ (encode_words index ++ (10 ∷ encode_indexes indexes))

unfoldable pub encode_prefixes : List ℕ → Bytes
encode_prefixes [] = []
encode_prefixes (p ∷ prefixes) = b' ' ∷ (show_nat p ++ encode_prefixes prefixes)

unfoldable pub encode_table_def : TableDef → Bytes
encode_table_def d =
    d.name
    ++ (10
        ∷ (show_int d.pkeys
            ++ (10
                ∷ (show_nat d.prefix
                    ++ (10
                        ∷ (show_nat (length d.cols)
                            ++ (10
                                ∷ (encode_cols d.cols d.types
                                    ++ (show_nat (length d.indexes)
                                        ++ (10
                                            ∷ (encode_indexes d.indexes
                                                ++ (show_nat (length d.index_prefixes)
                                                    ++ (encode_prefixes d.index_prefixes
                                                        ++ (10 ∷ []))))))))))))))

-- The loops of decode_table_def, by the rounds left.
unfoldable pub read_cols : ℕ → Bytes → Option (List Bytes × List ValueType × Bytes)
read_cols zero s = some ([], [], s)
read_cols (suc n) s = do
  (col, s1) ← read_word s
  (raw, s2) ← read_unsigned (2 ^ 32) s1
  type ← number_type raw
  (cols, types, rest) ← read_cols n s2
  some (col ∷ cols, type ∷ types, rest)

unfoldable pub read_words : ℕ → Bytes → Option (List Bytes × Bytes)
read_words zero s = some ([], s)
read_words (suc n) s = do
  (col, s1) ← read_word s
  (cols, rest) ← read_words n s1
  some (col ∷ cols, rest)

unfoldable pub read_indexes : ℕ → Bytes → Option (List (List Bytes) × Bytes)
read_indexes zero s = some ([], s)
read_indexes (suc k) s = do
  (n, s1) ← read_unsigned (2 ^ 64) s
  (index, s2) ← read_words n s1
  (indexes, rest) ← read_indexes k s2
  some (index ∷ indexes, rest)

unfoldable pub read_prefixes : ℕ → Bytes → Option (List ℕ × Bytes)
read_prefixes zero s = some ([], s)
read_prefixes (suc n) s = do
  (prefix, s1) ← read_unsigned (2 ^ 32) s
  (prefixes, rest) ← read_prefixes n s1
  some (prefix ∷ prefixes, rest)

unfoldable pub decode_table_def : Bytes → Option TableDef
decode_table_def input = do
  (name, s1) ← get_line input
  (pkeys, s2) ← read_int s1
  (prefix, s3) ← read_unsigned (2 ^ 32) s2
  (ncols, s4) ← read_unsigned (2 ^ 64) s3
  (cols, types, s5) ← read_cols ncols (ignore s4)
  (nindexes, s6) ← read_unsigned (2 ^ 64) s5
  (indexes, s7) ← read_indexes nindexes s6
  (nprefixes, s8) ← read_unsigned (2 ^ 64) s7
  (prefixes, s9) ← read_prefixes nprefixes s8
  some (record {
    name = name;
    types = types;
    cols = cols;
    pkeys = pkeys;
    indexes = indexes;
    prefix = prefix;
    index_prefixes = prefixes;
  })
