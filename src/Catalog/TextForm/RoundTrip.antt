-- ===== src/Catalog/TextForm/RoundTrip.antt =====
-- decode_table_def reads back what encode_table_def wrote, for names that the format can carry.
use sqldb.Base.{
  ℕ, ◌^◌, ◌<◌, ◌≡◌, refl, ◌∙◌, true, false, List, [], ◌∷◌, ◌++◌, some, Bytes, length, All, ◌≢◌,
  append_assoc, arith,
}
use sqldb.Catalog.Value.{ValueType, error, int_64, bytes}
use sqldb.Catalog.TableDef.{TableDef}
use sqldb.Catalog.TextForm.{
  type_number, number_type, encode_cols, encode_words, encode_indexes, encode_prefixes,
  encode_table_def, read_cols, read_words, read_indexes, read_prefixes, decode_table_def,
}
use sqldb.Catalog.TextForm.Stream.{
  show_nat, show_int, is_space, skip_spaces, take_line, get_line, take_word, read_word, ignore,
}
use sqldb.Catalog.TextForm.Numbers.{
  EndsNumber, IsInt, read_unsigned-show_nat, read_unsigned_space, read_int-show_int,
}

-- A name that one operator>> reads whole.
abbrev pub NoSpace : Bytes → Type 0
NoSpace = All (λ c. is_space c ≡ false)

pub record IsWord (s : Bytes) : Type 0 where
  pub some_char : s ≢ []
  pub no_space : NoSpace s

abbrev StartsSpace : Bytes → Type 0
StartsSpace [] = ⊥
StartsSpace (c ∷ s) = is_space c ≡ true

take_line-append : (s r : Bytes) → All (λ c. c ≢ 10) s → take_line (s ++ (10 ∷ r)) ≡ (s, r)
unfolding take_line
take_line-append [] r h = refl
take_line-append (c ∷ s) r h = ground (arith, take_line-append s r h.1)

get_line-append : (s r : Bytes) → All (λ c. c ≢ 10) s → get_line (s ++ (10 ∷ r)) ≡ some (s, r)
unfolding get_line
get_line-append [] r h = rw (take_line-append [] r h)
get_line-append (c ∷ s) r h = rw (take_line-append (c ∷ s) r h)

take_word-append : (s r : Bytes) → NoSpace s → StartsSpace r → take_word (s ++ r) ≡ (s, r)
unfolding take_word
take_word-append [] [] h e = absurd e
take_word-append [] (c ∷ r) h e = rw e
take_word-append (c ∷ s) r h e = rw (h.0, take_word-append s r h.1 e)

read_word-append : (s r : Bytes) → IsWord s → StartsSpace r → read_word (s ++ r) ≡ some (s, r)
unfolding read_word skip_spaces
read_word-append [] r h e = absurd (h.some_char refl)
read_word-append (c ∷ s) r h e = rw (h.no_space.0, take_word-append (c ∷ s) r h.no_space e)

read_word_space : (c : ℕ) (s : Bytes) → is_space c ≡ true → read_word (c ∷ s) ≡ read_word s
unfolding read_word skip_spaces
read_word_space c s h = rw h

number_type-type_number : (t : ValueType) → number_type (type_number t) ≡ some t
unfolding number_type type_number
number_type-type_number error = refl
number_type-type_number int_64 = refl
number_type-type_number bytes = refl

type_number-lt : (t : ValueType) → type_number t < 2 ^ 32
unfolding type_number
type_number-lt error = omega arith
type_number-lt int_64 = omega arith
type_number-lt bytes = omega arith

-- Every line leaves its newline to the next read, which skips it.
read_cols-encode_cols :
    (cols : List Bytes) (types : List ValueType) (r : Bytes)
    → All IsWord cols
    → length cols ≡ length types
    → read_cols (length cols) (10 ∷ (encode_cols cols types ++ r)) ≡ some (cols, types, 10 ∷ r)
unfolding read_cols encode_cols
read_cols-encode_cols [] [] r h e = refl
read_cols-encode_cols [] (t ∷ types) r h e = absurd (omega arith)
read_cols-encode_cols (c ∷ cols) [] r h e = absurd (omega arith)
read_cols-encode_cols (c ∷ cols) (t ∷ types) r h e =
    let tail = 10 ∷ (encode_cols cols types ++ r) in
    rw (
      append_assoc c (b' ' ∷ (show_nat (type_number t) ++ (10 ∷ encode_cols cols types))) r,
      append_assoc (show_nat (type_number t)) (10 ∷ encode_cols cols types) r,
      read_word_space 10 (c ++ (b' ' ∷ (show_nat (type_number t) ++ tail))) refl,
      read_word-append c (b' ' ∷ (show_nat (type_number t) ++ tail)) h.0 refl,
      read_unsigned_space (2 ^ 32) b' ' (show_nat (type_number t) ++ tail) refl,
      read_unsigned-show_nat (2 ^ 32) (type_number t) tail (type_number-lt t) refl,
      number_type-type_number t,
      read_cols-encode_cols cols types r h.1 (omega arith),
    )

-- At the first column there is no newline to skip.
read_cols_first :
    (c : Bytes) (cols : List Bytes) (s : Bytes)
    → read_cols (length (c ∷ cols)) s ≡ read_cols (length (c ∷ cols)) (10 ∷ s)
unfolding read_cols
read_cols_first c cols s = rw (read_word_space 10 s refl)

encode_words-StartsSpace :
    (cols : List Bytes) (r : Bytes) → StartsSpace r → StartsSpace (encode_words cols ++ r)
unfolding encode_words
encode_words-StartsSpace [] r e = e
encode_words-StartsSpace (c ∷ cols) r e = refl

encode_prefixes-StartsSpace :
    (ps : List ℕ) (r : Bytes) → StartsSpace r → StartsSpace (encode_prefixes ps ++ r)
unfolding encode_prefixes
encode_prefixes-StartsSpace [] r e = e
encode_prefixes-StartsSpace (p ∷ ps) r e = refl

StartsSpace-EndsNumber : (s : Bytes) → StartsSpace s → EndsNumber s
StartsSpace-EndsNumber [] e = tt
StartsSpace-EndsNumber (c ∷ s) e = ground arith

read_words-encode_words :
    (cols : List Bytes) (r : Bytes)
    → All IsWord cols
    → StartsSpace r
    → read_words (length cols) (encode_words cols ++ r) ≡ some (cols, r)
unfolding read_words encode_words
read_words-encode_words [] r h e = refl
read_words-encode_words (c ∷ cols) r h e = rw (
  append_assoc c (encode_words cols) r,
  read_word_space b' ' (c ++ (encode_words cols ++ r)) refl,
  read_word-append c (encode_words cols ++ r) h.0 (encode_words-StartsSpace cols r e),
  read_words-encode_words cols r h.1 e,
)

abbrev IsIndex : List Bytes → Type 0
IsIndex index = (length index < 2 ^ 64) × All IsWord index

read_indexes-encode_indexes :
    (indexes : List (List Bytes)) (r : Bytes)
    → All IsIndex indexes
    → read_indexes (length indexes) (10 ∷ (encode_indexes indexes ++ r)) ≡ some (indexes, 10 ∷ r)
unfolding read_indexes encode_indexes
read_indexes-encode_indexes [] r h = refl
read_indexes-encode_indexes (index ∷ indexes) r h =
    let tail = 10 ∷ (encode_indexes indexes ++ r) in
    rw (
      append_assoc (show_nat (length index)) (encode_words index ++ (10 ∷ encode_indexes indexes))
          r,
      append_assoc (encode_words index) (10 ∷ encode_indexes indexes) r,
      read_unsigned_space (2 ^ 64) 10 (show_nat (length index) ++ (encode_words index ++ tail))
          refl,
      read_unsigned-show_nat (2 ^ 64) (length index) (encode_words index ++ tail) h.0.0 (
          StartsSpace-EndsNumber (encode_words index ++ tail)
            (encode_words-StartsSpace index tail refl)),
      read_words-encode_words index tail h.0.1 refl,
      read_indexes-encode_indexes indexes r h.1,
    )

read_prefixes-encode_prefixes :
    (ps : List ℕ) (r : Bytes)
    → All (λ p. p < 2 ^ 32) ps
    → StartsSpace r
    → read_prefixes (length ps) (encode_prefixes ps ++ r) ≡ some (ps, r)
unfolding read_prefixes encode_prefixes
read_prefixes-encode_prefixes [] r h e = refl
read_prefixes-encode_prefixes (p ∷ ps) r h e = rw (
  append_assoc (show_nat p) (encode_prefixes ps) r,
  read_unsigned_space (2 ^ 32) b' ' (show_nat p ++ (encode_prefixes ps ++ r)) refl,
  read_unsigned-show_nat (2 ^ 32) p (encode_prefixes ps ++ r) h.0
      (StartsSpace-EndsNumber (encode_prefixes ps ++ r) (encode_prefixes-StartsSpace ps r e)),
  read_prefixes-encode_prefixes ps r h.1 e,
)

-- A definition whose names the format can carry: no newline in the table's name, no white space in
-- a column's, and numbers within their C++ types.
pub record IsPrintable (d : TableDef) : Type 0 where
  pub name : All (λ c. c ≢ 10) d.name
  pub cols : All IsWord d.cols
  pub some_col : d.cols ≢ []
  pub parallel : length d.cols ≡ length d.types
  pub indexes : All IsIndex d.indexes
  pub pkeys : IsInt d.pkeys
  pub prefix : d.prefix < 2 ^ 32
  pub index_prefixes : All (λ p. p < 2 ^ 32) d.index_prefixes
  pub sizes :
      (length d.cols < 2 ^ 64) × (length d.indexes < 2 ^ 64) × (length d.index_prefixes < 2 ^ 64)

read_cols_whole :
    (cols : List Bytes) (types : List ValueType) (r : Bytes)
    → cols ≢ []
    → All IsWord cols
    → length cols ≡ length types
    → read_cols (length cols) (encode_cols cols types ++ r) ≡ some (cols, types, 10 ∷ r)
read_cols_whole [] types r s h e = absurd (s refl)
read_cols_whole (c ∷ cols) types r s h e =
    read_cols_first c cols (encode_cols (c ∷ cols) types ++ r)
    ∙ read_cols-encode_cols (c ∷ cols) types r h e

-- decode_table_def gives back every printable definition from its text form.
pub decode_table_def-encode_table_def :
    (d : TableDef) → IsPrintable d → decode_table_def (encode_table_def d) ≡ some d
unfolding decode_table_def encode_table_def ignore
decode_table_def-encode_table_def d p =
    let end : Bytes = encode_prefixes d.index_prefixes ++ (10 ∷ []) in
    let t8 = show_nat (length d.index_prefixes) ++ end in
    let t7 = encode_indexes d.indexes ++ t8 in
    let t6 = show_nat (length d.indexes) ++ (10 ∷ t7) in
    let t5 = encode_cols d.cols d.types ++ t6 in
    let t4 = show_nat (length d.cols) ++ (10 ∷ t5) in
    let t3 = show_nat d.prefix ++ (10 ∷ t4) in
    let t2 = show_int d.pkeys ++ (10 ∷ t3) in
    let behind : EndsNumber end =
      StartsSpace-EndsNumber end (encode_prefixes-StartsSpace d.index_prefixes (10 ∷ []) refl) in
    rw (
      get_line-append d.name t2 p.name,
      read_int-show_int d.pkeys (10 ∷ t3) p.pkeys refl,
      read_unsigned_space (2 ^ 32) 10 t3 refl,
      read_unsigned-show_nat (2 ^ 32) d.prefix (10 ∷ t4) p.prefix refl,
      read_unsigned_space (2 ^ 64) 10 t4 refl,
      read_unsigned-show_nat (2 ^ 64) (length d.cols) (10 ∷ t5) p.sizes.0 refl,
      read_cols_whole d.cols d.types t6 p.some_col p.cols p.parallel,
      read_unsigned_space (2 ^ 64) 10 t6 refl,
      read_unsigned-show_nat (2 ^ 64) (length d.indexes) (10 ∷ t7) p.sizes.1 refl,
      read_indexes-encode_indexes d.indexes t8 p.indexes,
      read_unsigned_space (2 ^ 64) 10 t8 refl,
      read_unsigned-show_nat (2 ^ 64) (length d.index_prefixes) end p.sizes.2 behind,
      read_prefixes-encode_prefixes d.index_prefixes (10 ∷ []) p.index_prefixes refl,
    )
