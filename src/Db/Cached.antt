-- ===== src/Db/Cached.antt =====
-- The catalog cache holds committed definitions only: the comment over DB::commit.
use sqldb.Base.{
  ℕ, ◌⊎◌, ◌≡◌, refl, sym, ap, subst, ◌∙◌, false, ◌∷◌, none, some, Bytes, bytes_eq, bytes_eq_iff,
  text, ok, failed, not, ◌++◌, ◌==◌, ok-injective, >>=-eq-ok, ensure_then-ok, Bool-cases,
  Option-cases, inl, inr, arith,
}
use sqldb.Catalog.TableDef.{
  TableDef, tdef_table, tdef_meta, table_def_builder, add_col, set_pkeys, set_prefix,
}
use sqldb.Catalog.Schema.{table_def_check, is_nonempty}
use sqldb.Catalog.Store
use sqldb.Catalog.Store.{
  Kv, Cache, is_stored, find_cached, get_table_def, get_table_def_from_kv, internal_get,
  internal_set, internal_key, alloc_prefix,
}
use sqldb.Access.RowCodec.{u32_be}
use sqldb.Db.{Dbtx, begin, commit, abort, left_cache, find_table, table_new}

abbrev prefixes_set : Bytes
prefixes_set = text "prefixes must not be set by the caller"

module _ {S : Type 0} (kv : Kv S) where
  -- Every definition in the cache is the one that the store has.
  abbrev pub Coherent : Cache → S → Type 0
  Coherent cache s =
      (name : Bytes) (d : TableDef)
      → find_cached cache name ≡ some d
      → get_table_def_from_kv kv s name ≡ some d

  -- Two stores have the same definitions.
  abbrev pub SameDefs : S → S → Type 0
  SameDefs s t = (name : Bytes) → get_table_def_from_kv kv t name ≡ get_table_def_from_kv kv s name

  internal_get-other :
      (s t : S) (d e : TableDef) (pk val name : Bytes)
      → internal_set kv s d pk val ≡ ok t
      → bytes_eq (internal_key d.prefix pk) (internal_key e.prefix name) ≡ false
      → internal_get kv t e name ≡ internal_get kv s e name
  unfolding internal_get internal_set
  internal_get-other s t d e pk val name set differ =
      kv.get-set_other s t (internal_key d.prefix pk) val (internal_key e.prefix name) set differ

  -- The pairs of @meta are none of @table's, and those of two names are different.
  meta_apart :
      (pk name : Bytes)
      → bytes_eq (internal_key tdef_meta.prefix pk) (internal_key tdef_table.prefix name) ≡ false
  unfolding internal_key u32_be tdef_meta tdef_table set_prefix set_pkeys add_col table_def_builder
      bytes_eq
  meta_apart pk name = refl

  names_apart :
      (pk name : Bytes)
      → bytes_eq pk name ≡ false
      → bytes_eq (internal_key tdef_table.prefix pk) (internal_key tdef_table.prefix name) ≡ false
  unfolding internal_key u32_be tdef_table set_prefix set_pkeys add_col table_def_builder bytes_eq
  names_apart pk name differ = differ

  alloc_prefix-keeps :
      (s t : S) (n first : ℕ) (name : Bytes)
      → alloc_prefix kv s n ≡ ok (first, t)
      → internal_get kv t tdef_table name ≡ internal_get kv s tdef_table name
  unfolding alloc_prefix
  alloc_prefix-keeps s t n first name called =
      let (u, set, same) =
        >>=-eq-ok (internal_set kv s tdef_meta (text "next_prefix") _) _ called in
      let here : u ≡ t = ap (λ r. r.1) (ok-injective same) in
      subst (λ r. internal_get kv r tdef_table name ≡ internal_get kv s tdef_table name) here
        (internal_get-other s u tdef_meta tdef_table (text "next_prefix") _ name set
          (meta_apart (text "next_prefix") name))

  same_pair :
      (s t : S) (name : Bytes)
      → internal_get kv t tdef_table name ≡ internal_get kv s tdef_table name
      → get_table_def_from_kv kv t name ≡ get_table_def_from_kv kv s name
  unfolding get_table_def_from_kv
  same_pair s t name e = rw (get_table_def_from_kv, e) refl

  no_def :
      (s : S) (name : Bytes)
      → internal_get kv s tdef_table name ≡ none
      → get_table_def_from_kv kv s name ≡ none
  unfolding get_table_def_from_kv
  no_def s name e = rw (get_table_def_from_kv, e) refl

  -- table_new leaves every definition that is there.
  table_new-keeps :
      (s t : S) (d e : TableDef) (name : Bytes)
      → Store.table_new kv s d ≡ ok t
      → get_table_def_from_kv kv s name ≡ some e
      → get_table_def_from_kv kv t name ≡ some e
  unfolding Store.table_new
  table_new-keeps s t d e name made there =
      let (c, checked, made) = >>=-eq-ok (table_def_check d) _ made in
      let (no_prefix, made) = ensure_then-ok (c.prefix == 0) (failed prefixes_set) _ made in
      let (no_prefixes, made) =
        ensure_then-ok (not (is_nonempty c.index_prefixes)) (failed prefixes_set) _ made in
      let (new, made) =
        ensure_then-ok (not (is_stored (internal_get kv s tdef_table c.name)))
          (failed (text "table already exists: " ++ c.name)) _ made in
      let (got, allocated, set) = >>=-eq-ok (alloc_prefix kv s _) _ made in
      let gone : internal_get kv s tdef_table c.name ≡ none = ground (arith, new) in
      let apart : bytes_eq c.name name ≡ false =
        elim (Bool-cases (bytes_eq c.name name)) as (λ _. bytes_eq c.name name ≡ false) [
          | inr differ ↦ differ
          | inl same ↦
              let gone_too = no_def s name (
                subst (λ k. internal_get kv s tdef_table k ≡ none)
                  ((bytes_eq_iff c.name name).0 same) gone) in
              absurd (ground (arith, gone_too, there))
        ] in
      same_pair s t name (
        internal_get-other got.1 t tdef_table tdef_table c.name _ name set
          (names_apart c.name name apart)
        ∙ alloc_prefix-keeps s got.1 _ got.0 name allocated)
      ∙ there

  -- What the transaction does between begin and its end, as far as definitions go: it looks a table up, makes
  -- one, or writes pairs of rows, which are none of @table's.
  pub data Run : Dbtx S → Dbtx S → Type 0 where
    started : (tx : Dbtx S) → Run tx tx
    looked_up :
        (tx now next : Dbtx S) (table : Bytes) (d : TableDef)
        → Run tx now
        → find_table kv table now ≡ ok (d, next)
        → Run tx next
    created :
        (tx now next : Dbtx S) (d : TableDef)
        → Run tx now
        → table_new kv d now ≡ ok next
        → Run tx next
    wrote :
        (tx now : Dbtx S) (t : S)
        → Run tx now
        → SameDefs now.kv_tx t
        → Run tx (record now { kv_tx = t })

  -- The cache agrees with the transaction's store, which has the committed definitions, and only those,
  -- until a table is made.
  abbrev Sound : S → Dbtx S → Type 0
  Sound s tx = Coherent tx.cache tx.kv_tx × (tx.created_table ≡ false → SameDefs s tx.kv_tx)

  find_table-cases :
      (now next : Dbtx S) (table : Bytes) (d : TableDef)
      → find_table kv table now ≡ ok (d, next)
      → (next ≡ now)
        ⊎ ((next ≡ record now { cache = (table, d) ∷ now.cache })
            × (get_table_def_from_kv kv now.kv_tx table ≡ some d))
  unfolding find_table get_table_def
  find_table-cases now next table d found = elim (Option-cases (find_cached now.cache table)) [
    | inr (c, cached) ↦ inl (ground (arith, cached, found))
    | inl absent ↦ elim (Option-cases (get_table_def_from_kv kv now.kv_tx table)) [
      | inl nowhere ↦ absurd (ground (arith, absent, nowhere, found))
      | inr (c, stored) ↦
          inr (ground (arith, absent, stored, found), ground (arith, absent, stored, found))
    ]
  ]

  Coherent-cons :
      (cache : Cache) (s : S) (table : Bytes) (d : TableDef)
      → get_table_def_from_kv kv s table ≡ some d
      → Coherent cache s
      → Coherent ((table, d) ∷ cache) s
  unfolding find_cached
  Coherent-cons cache s table d stored coherent name e cached =
      ground (arith, stored, coherent name e, bytes_eq_iff table name, cached)

  find_table-Sound :
      (s : S) (now next : Dbtx S) (table : Bytes) (d : TableDef)
      → find_table kv table now ≡ ok (d, next)
      → Sound s now
      → Sound s next
  find_table-Sound s now next table d found (coherent, same) =
      elim (find_table-cases now next table d found) [
        | inl e ↦ subst (Sound s) (sym e) (coherent, same)
        | inr (e, stored) ↦
            subst (Sound s) (sym e)
              (Coherent-cons now.cache now.kv_tx table d stored coherent, same)
      ]

  table_new-Sound :
      (s : S) (now next : Dbtx S) (d : TableDef)
      → table_new kv d now ≡ ok next
      → Sound s now
      → Sound s next
  unfolding table_new
  table_new-Sound s now next d made (coherent, same) =
      let (t, called, e) = >>=-eq-ok (Store.table_new kv now.kv_tx d) _ made in
      subst (Sound s) (ok-injective e) (
        λ name c cached. table_new-keeps now.kv_tx t d c name called (coherent name c cached),
        λ no. absurd (ground (arith, no)),
      )

  Run-Sound : (s : S) (tx now : Dbtx S) → Run tx now → Sound s tx → Sound s now
  Run-Sound s tx now (started _) sound = sound
  Run-Sound s tx now (looked_up _ before _ table d run found) sound =
      find_table-Sound s before now table d found (Run-Sound s tx before run sound)
  Run-Sound s tx now (created _ before _ d run made) sound =
      table_new-Sound s before now d made (Run-Sound s tx before run sound)
  Run-Sound s tx now (wrote _ before t run kept) sound =
      let (coherent, same) = Run-Sound s tx before run sound in
      (λ name d cached. kept name ∙ coherent name d cached, λ no name. kept name ∙ same no name)

  -- A transaction that began with a cache of the store's definitions, and then looked tables up, made
  -- some, and wrote pairs that leave the definitions as they are, leaves a cache of the definitions of its
  -- own store where it commits, and of those of the store that it began with where it is aborted.
  pub Coherent-left_cache :
      (cache : Cache) (s : S) (now : Dbtx S)
      → Coherent cache s
      → Run (begin (λ r. r) cache s) now
      → Coherent (commit (λ r. ok r) now).0 now.kv_tx × Coherent (abort (λ r. s) now).0 s
  unfolding begin commit abort left_cache find_cached
  Coherent-left_cache cache s now coherent run =
      let (own, same) = Run-Sound s (begin (λ r. r) cache s) now run (coherent, λ no name. refl) in
      elim (Bool-cases now.created_table) [
        | inl made ↦ rw made (
          λ name d cached. absurd (ground (arith, cached)),
          λ name d cached. absurd (ground (arith, cached)),
        )
        | inr none_made ↦
            rw none_made (own, λ name d cached. sym (same none_made name) ∙ own name d cached)
      ]
