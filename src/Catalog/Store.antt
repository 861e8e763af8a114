-- ===== src/Catalog/Store.antt =====
-- The Catalog of include/catalog/catalog.h and src/catalog/catalog.cpp: the definitions in @table, the
-- prefixes handed out from @meta, and the cache of the write transaction.
pub mod Law
use sqldb.Base.{
  ℕ, zero, suc, ◌+◌, ◌*◌, ◌/◌, ◌%◌, ◌^◌, ◌≡◌, Bool, true, false, not, ◌||◌, List, [], ◌∷◌, ◌++◌,
  Option, none, some, Bytes, bytes_eq, text, if◌then◌else◌, ◌==◌, length, Result, ok, stop, failed,
  ◌>>=◌, ◌>>◌, ensure,
}
use sqldb.Catalog.TableDef.{TableDef, tdef_meta, tdef_table}
use sqldb.Catalog.Schema.{table_def_check, is_nonempty}
use sqldb.Catalog.TextForm.{encode_table_def, decode_table_def}
use sqldb.Access.RowCodec.{u32_be}

-- What the catalog asks of a write transaction: KVReader::get and KVTX::set, which may refuse.
pub record Kv (S : Type 0) : Type 0 where
  pub get : S → Bytes → Option Bytes
  pub set : S → Bytes → Bytes → Result S
  pub get-set_same : (s t : S) (k v : Bytes) → set s k v ≡ ok t → get t k ≡ some v
  pub get-set_other :
      (s t : S) (k v j : Bytes) → set s k v ≡ ok t → bytes_eq k j ≡ false → get t j ≡ get s j

abbrev pub table_prefix_min : ℕ
table_prefix_min = 3

unfoldable pub internal_key : ℕ → Bytes → Bytes
internal_key prefix pk = u32_be prefix ++ pk

-- The four bytes of a stored prefix; any other value counts as absent.
unfoldable pub read_u32 : Option Bytes → Option ℕ
read_u32 (some (a ∷ b ∷ c ∷ d ∷ [])) = some (a * 2 ^ 24 + b * 2 ^ 16 + c * 2 ^ 8 + d)
read_u32 _ = none

abbrev pub or_min : Option ℕ → ℕ
or_min none = table_prefix_min
or_min (some n) = n

-- cache_, as a list of names and definitions.
abbrev pub Cache : Type 0
Cache = List (Bytes × TableDef)

unfoldable pub find_cached : Cache → Bytes → Option TableDef
find_cached [] name = none
find_cached (entry ∷ cache) name =
    let later = find_cached cache name in if bytes_eq entry.0 name then some entry.1 else later

-- The definition with the prefix of its rows, and one for each index behind it.
unfoldable pub prefixes_from : ℕ → ℕ → List ℕ
prefixes_from zero first = []
prefixes_from (suc n) first = first % 2 ^ 32 ∷ prefixes_from n (suc first)

unfoldable pub with_prefixes : TableDef → ℕ → TableDef
with_prefixes d first = record d {
  prefix = first;
  index_prefixes = prefixes_from (length d.indexes) (suc first);
}

-- What internal_get tells: is a definition stored under the name?
abbrev pub is_stored : Option Bytes → Bool
is_stored none = false
is_stored (some encoded) = true

module _ {S : Type 0} (kv : Kv S) where
  unfoldable pub internal_get : S → TableDef → Bytes → Option Bytes
  internal_get s d pk = kv.get s (internal_key d.prefix pk)

  unfoldable pub internal_set : S → TableDef → Bytes → Bytes → Result S
  internal_set s d pk val = kv.set s (internal_key d.prefix pk) val

  unfoldable pub get_table_def_from_kv : S → Bytes → Option TableDef
  get_table_def_from_kv s name = elim (internal_get s tdef_table name) [
    | none ↦ none
    | some encoded ↦ decode_table_def encoded
  ]

  unfoldable pub get_table_def : Cache → S → Bytes → Option TableDef × Cache
  get_table_def cache s name = elim (find_cached cache name) [
    | some d ↦ (some d, cache)
    | none ↦ elim (get_table_def_from_kv s name) [
      | none ↦ (none, cache)
      | some d ↦ (some d, (name, d) ∷ cache)
    ]
  ]

  -- The first of `n` prefixes in a row, and the transaction with the next one stored.
  unfoldable pub alloc_prefix : S → ℕ → Result (ℕ × S)
  alloc_prefix s n = do
    let next = or_min (read_u32 (internal_get s tdef_meta (text "next_prefix")))
    t ← internal_set s tdef_meta (text "next_prefix") (u32_be ((next + n) % 2 ^ 32))
    ok (next, t)

  unfoldable pub table_new : S → TableDef → Result S
  table_new s d = do
    checked ← table_def_check d
    ensure (checked.prefix == 0) (failed (text "prefixes must not be set by the caller"))
    ensure (not (is_nonempty checked.index_prefixes))
        (failed (text "prefixes must not be set by the caller"))
    ensure (not (is_stored (internal_get s tdef_table checked.name)))
        (failed (text "table already exists: " ++ checked.name))
    (first, t) ← alloc_prefix s ((1 + length checked.indexes) % 2 ^ 32)
    internal_set t tdef_table checked.name (encode_table_def (with_prefixes checked first))
