-- ===== src/Catalog/Store/Law.antt =====
-- What table_new stores is what get_table_def reads, and two allocations in a row hand out different
-- prefixes, modulo 2^32.
use sqldb.Base.{
  ℕ, ◌+◌, ◌%◌, ◌^◌, ◌<◌, ◌≡◌, refl, ap, some, Bytes, text, length, ok, Result-cases, inl, inr,
  arith,
}
use sqldb.Catalog.TableDef.{TableDef, tdef_meta, tdef_table}
use sqldb.Catalog.Schema.{table_def_check}
use sqldb.Catalog.TextForm.{encode_table_def}
use sqldb.Catalog.TextForm.RoundTrip.{IsPrintable, decode_table_def-encode_table_def}
use sqldb.Access.RowCodec.{u32_be}
use sqldb.Catalog.Store.{
  Kv, or_min, read_u32, internal_get, internal_set, get_table_def_from_kv, alloc_prefix, table_new,
  with_prefixes,
}

read_u32-u32_be : (v : ℕ) → v < 2 ^ 32 → read_u32 (some (u32_be v)) ≡ some v
unfolding read_u32 u32_be
read_u32-u32_be v h = ap some (omega arith)

module _ {S : Type 0} (kv : Kv S) where
  -- What is set under a key is read there.
  internal_get-internal_set :
      (s t : S) (d : TableDef) (pk val : Bytes)
      → internal_set kv s d pk val ≡ ok t
      → internal_get kv t d pk ≡ some val
  unfolding internal_get internal_set
  internal_get-internal_set s t d pk val h = kv.get-set_same s t _ val h

  -- The prefix that is due.
  abbrev next : S → ℕ
  next s = or_min (read_u32 (internal_get kv s tdef_meta (text "next_prefix")))

-- Of two allocations in a row the second starts where the first one's prefixes end, modulo 2^32.
pub alloc_prefix-alloc_prefix :
    {S : Type 0} (kv : Kv S) (s t u : S) (n m a b : ℕ)
    → alloc_prefix kv s n ≡ ok (a, t)
    → alloc_prefix kv t m ≡ ok (b, u)
    → b ≡ (a + n) % 2 ^ 32
unfolding alloc_prefix
alloc_prefix-alloc_prefix kv s t u n m a b h k =
    elim (Result-cases
      (internal_set kv s tdef_meta (text "next_prefix") (u32_be ((next kv s + n) % 2 ^ 32)))) [
        | inl (r, e) ↦ ground (
          arith,
          e,
          internal_get-internal_set kv s r tdef_meta (text "next_prefix") _ e,
          read_u32-u32_be ((next kv s + n) % 2 ^ 32) (omega arith),
        )
        | inr (why, e) ↦ ground arith
      ]

-- Where table_new succeeds, the definition, checked and with its prefixes, is what
-- get_table_def_from_kv reads under its name, if it is printable.
pub get_table_def_from_kv-table_new :
    {S : Type 0} (kv : Kv S) (s r t : S) (d c : TableDef) (first : ℕ)
    → table_def_check d ≡ ok c
    → alloc_prefix kv s ((1 + length c.indexes) % 2 ^ 32) ≡ ok (first, r)
    → IsPrintable (with_prefixes c first)
    → table_new kv s d ≡ ok t
    → get_table_def_from_kv kv t c.name ≡ some (with_prefixes c first)
unfolding table_new get_table_def_from_kv
get_table_def_from_kv-table_new kv s r t d c first e a p h =
    let there : internal_get kv t tdef_table c.name
        ≡ some (encode_table_def (with_prefixes c first)) =
      internal_get-internal_set kv r t tdef_table c.name _ (ground arith) in
    rw (get_table_def_from_kv, there, decode_table_def-encode_table_def (with_prefixes c first) p)
      refl
