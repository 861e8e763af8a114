-- ===== src/Access/Rows/Effect.antt =====
-- What db_update and db_delete do to the map.
use sqldb.Base.{
  ℕ, ◌≡◌, refl, sym, ap, subst, ◌∙◌, true, false, List, [], ◌∷◌, none, some, take, drop, length,
  ◌==◌, Bytes, ok, stop, failed, absent, asserted, ok-injective, Bool-cases, ◌⊎◌, inl, inr, arith,
}
use sqldb.Catalog.Value.{Value}
use sqldb.Catalog.Record.{Record}
use sqldb.Catalog.TableDef.{TableDef, key_count}
use sqldb.Catalog.Schema.{is_nonempty}
use sqldb.Encoding.{encode_values}
use sqldb.Storage.SortedMap.{Pairs, find, put, erase}
use sqldb.Storage.Tree.{check_limit, check_key_limit}
use sqldb.Storage.Kv.Tx.{UpdateMode, Allows, is_absent, or_empty}
use sqldb.Storage.Kv.Api.{Api}
use sqldb.Access.RowCodec.{encode_key, decode_row, check_record}
use sqldb.Access.Rows.{
  refusal, IndexOp, index_op, index_loop, index_add, index_del, drop_old, db_update, db_delete,
}
use sqldb.Access.Rows.Indexed.{
  index_keys, put_keys, erase_keys, Fresh, Present, Blocked, AreShort, index_loop-add,
  index_loop-del,
}

-- A record that is a row of the table: its values, its pair, and its index keys, all within the limits.
pub record IsRow (d : TableDef) (rec : Record) (vals : List Value) (key val : Bytes)
    (keys : List Bytes) : Type 0 where
  pub checked : check_record d rec (length d.cols) ≡ ok vals
  pub key_made : encode_key d.prefix (take (key_count d) vals) ≡ ok key
  pub val_made : encode_values (drop (key_count d) vals) ≡ ok val
  pub limit : check_limit key val ≡ ok tt
  pub parallel : length d.index_prefixes ≡ length d.indexes
  pub keys_made : index_keys rec d.indexes d.index_prefixes ≡ ok keys
  pub short : AreShort keys

-- A table without an index has no index keys.
no_keys :
    (rec : Record) (indexes : List (List Bytes)) (prefixes : List ℕ) (keys : List Bytes)
    → is_nonempty indexes ≡ false
    → index_keys rec indexes prefixes ≡ ok keys
    → keys ≡ []
unfolding index_keys
no_keys rec [] prefixes keys e named = sym (ok-injective named)
no_keys rec (cols ∷ indexes) prefixes keys e named = absurd (ground (arith, e))

module _ {S : Type 0} (api : Api S) (d : TableDef) where
  index_op-loop :
      (rec : Record) (op : IndexOp) (s : S)
      → length d.index_prefixes ≡ length d.indexes
      → index_op api d rec op s ≡ index_loop api op rec d.indexes d.index_prefixes s
  unfolding index_op
  index_op-loop rec op s parallel =
      let same : (length d.index_prefixes == length d.indexes) ≡ true = ground (arith, parallel) in
      rw same refl

  -- A write that the mode does not allow says so, and names what was there.
  pub db_update-refused :
      (rec : Record) (vals : List Value) (key val : Bytes) (keys : List Bytes) (mode : UpdateMode)
      (s : S) (kvs : Pairs)
      → IsRow d rec vals key val keys
      → api.Stands s kvs
      → ¬ (Allows mode (find key kvs))
      → db_update api d rec mode s ≡ stop (failed (refusal d (is_absent (find key kvs))))
  unfolding db_update
  db_update-refused rec vals key val keys mode s kvs row stands forbidden =
      let (r, call, added, old, allowed, refused) =
        api.update-put s mode key val kvs stands row.limit in
      rw (row.checked, row.key_made, row.val_made, call, (refused forbidden).0, added) refl

  -- For a new row within the limits, where the mode allows one and none of its index keys is taken,
  -- db_update returns, and the map has the row's pair and its index keys beside what it had.
  pub db_update-put :
      (rec : Record) (vals : List Value) (key val : Bytes) (keys : List Bytes) (mode : UpdateMode)
      (s : S) (kvs : Pairs)
      → IsRow d rec vals key val keys
      → api.Stands s kvs
      → find key kvs ≡ none
      → Allows mode none
      → Fresh keys (put key val kvs)
      → (t : S) × (db_update api d rec mode s ≡ ok t)
        × api.Stands t (put_keys keys (put key val kvs))
  unfolding db_update put_keys
  db_update-put rec vals key val keys mode s kvs row stands new mode_allows fresh =
      let (r, call, added, old, allowed, refused) =
        api.update-put s mode key val kvs stands row.limit in
      let (done, after) = allowed (subst (Allows mode) (sym new) mode_allows) in
      let is_new : r.added ≡ true = added ∙ ap is_absent new in
      elim (Bool-cases (is_nonempty d.indexes)) [
        | inr bare ↦ (
          r.store,
          rw (row.checked, row.key_made, row.val_made, call, done, bare) refl,
          subst (λ l. api.Stands r.store (put_keys l (put key val kvs)))
              (sym (no_keys rec d.indexes d.index_prefixes keys bare row.keys_made)) after,
        )
        | inl indexed ↦
            elim (index_loop-add api rec d.indexes d.index_prefixes keys r.store (put key val kvs)
              row.keys_made row.short after) [
                | inl (stale, add) ↦ absurd (stale fresh)
                | inr (all, t, add, last) ↦ (
                  t,
                  rw
                      (
                        row.checked,
                        row.key_made,
                        row.val_made,
                        call,
                        done,
                        indexed,
                        is_new,
                        index_op-loop rec index_add r.store row.parallel,
                        add,
                      )
                      refl,
                  last,
                )
              ]
      ]

  -- The row that stands under the key: its record, and its index keys, within the limits.
  abbrev pub OldRow : Bytes → Bytes → Record → List Bytes → Type 0
  OldRow key old row keys =
      (decode_row d key old ≡ ok row)
      × (index_keys row d.indexes d.index_prefixes ≡ ok keys)
      × AreShort keys

  drop_old-erase :
      (key old : Bytes) (row : Record) (keys : List Bytes) (s : S) (kvs : Pairs)
      → length d.index_prefixes ≡ length d.indexes
      → OldRow key old row keys
      → api.Stands s kvs
      → (Blocked api keys kvs × (drop_old api d key old s ≡ stop asserted))
        ⊎ (Present keys kvs
            × (t : S) × (drop_old api d key old s ≡ ok t)
            × api.Stands t (erase_keys keys kvs))
  unfolding drop_old
  drop_old-erase key old row keys s kvs parallel (decoded, named, short) stands =
      elim (index_loop-del api row d.indexes d.index_prefixes keys s kvs named short stands) [
        | inl (why, call) ↦
            inl (why, rw (decoded, index_op-loop row index_del s parallel, call) refl)
        | inr (present, t, call, after) ↦
            inr (present, t, rw (decoded, index_op-loop row index_del s parallel, call) refl, after)
      ]

  -- For a row within the limits over one that decodes and whose index keys are within the limits, where
  -- the mode allows it, db_update replaces the pair, takes the index keys of the old row away and adds
  -- those of the new one. Only where one of the old index keys is not there at its turn, or its removal
  -- stops in a crowded state, or one of the new ones is taken, does it stop at an assertion instead.
  pub db_update-replace :
      (rec old_rec : Record) (vals : List Value) (key val old : Bytes) (keys old_keys : List Bytes)
      (mode : UpdateMode) (s : S) (kvs : Pairs)
      → IsRow d rec vals key val keys
      → OldRow key old old_rec old_keys
      → api.Stands s kvs
      → find key kvs ≡ some old
      → Allows mode (some old)
      → ((Blocked api old_keys (put key val kvs)
            ⊎ ¬ (Fresh keys (erase_keys old_keys (put key val kvs))))
          × (db_update api d rec mode s ≡ stop asserted))
        ⊎ ((t : S) × (db_update api d rec mode s ≡ ok t)
            × api.Stands t (put_keys keys (erase_keys old_keys (put key val kvs))))
  unfolding db_update put_keys erase_keys
  db_update-replace rec old_rec vals key val old keys old_keys mode s kvs row before stands there
        mode_allows =
      let (r, call, added, was, allowed, refused) =
        api.update-put s mode key val kvs stands row.limit in
      let (done, after) = allowed (subst (Allows mode) (sym there) mode_allows) in
      let not_new : r.added ≡ false = added ∙ ap is_absent there in
      let same : r.old ≡ old = was ∙ ap or_empty there in
      elim (Bool-cases (is_nonempty d.indexes)) [
        | inr bare ↦ inr (
          r.store,
          rw (row.checked, row.key_made, row.val_made, call, done, bare) refl,
          subst (λ l. api.Stands r.store (put_keys l (erase_keys old_keys (put key val kvs))))
              (sym (no_keys rec d.indexes d.index_prefixes keys bare row.keys_made))
              (subst (λ l. api.Stands r.store (erase_keys l (put key val kvs)))
                (sym (no_keys old_rec d.indexes d.index_prefixes old_keys bare before.1)) after),
        )
        | inl indexed ↦
            elim (drop_old-erase key old old_rec old_keys r.store (put key val kvs) row.parallel
              before after) [
                | inl (why, drop_call) ↦ inl (
                  inl why,
                  rw
                      (
                        row.checked, row.key_made, row.val_made, call, done, indexed, not_new, same,
                        drop_call,
                      )
                      refl,
                )
                | inr (present, t, drop_call, dropped) ↦
                    elim (index_loop-add api rec d.indexes d.index_prefixes keys t
                      (erase_keys old_keys (put key val kvs)) row.keys_made row.short dropped) [
                        | inl (stale, add) ↦ inl (
                          inr stale,
                          rw
                              (
                                row.checked,
                                row.key_made,
                                row.val_made,
                                call,
                                done,
                                indexed,
                                not_new,
                                same,
                                drop_call,
                                index_op-loop rec index_add t row.parallel,
                                add,
                              )
                              refl,
                        )
                        | inr (all, u, add, last) ↦ inr (
                          u,
                          rw
                              (
                                row.checked,
                                row.key_made,
                                row.val_made,
                                call,
                                done,
                                indexed,
                                not_new,
                                same,
                                drop_call,
                                index_op-loop rec index_add t row.parallel,
                                add,
                              )
                              refl,
                          last,
                        )
                      ]
              ]
      ]

  -- For a primary key within the limits, under which only a row that decodes and has index keys within the
  -- limits may stand, db_delete returns false where no row is there, and else takes the pair and the index
  -- keys away. Only where del itself stops in a crowded state, or one of the index keys is not there at its
  -- turn, or its removal stops in a crowded state, does db_delete stop at an assertion instead.
  pub db_delete-erase :
      (rec : Record) (vals : List Value) (key : Bytes) (s : S) (kvs : Pairs)
      → check_record d rec (key_count d) ≡ ok vals
      → encode_key d.prefix vals ≡ ok key
      → check_key_limit key ≡ ok tt
      → length d.index_prefixes ≡ length d.indexes
      → api.Stands s kvs
      → ((old : Bytes)
          → find key kvs ≡ some old
          → (old_rec : Record) × (old_keys : List Bytes) × OldRow key old old_rec old_keys)
      → ((find key kvs ≡ none) × (db_delete api d rec s ≡ stop absent))
        ⊎ ((old : Bytes) × (old_rec : Record) × (old_keys : List Bytes) × (find key kvs ≡ some old)
            × OldRow key old old_rec old_keys
            × ((((api.Crowded s × (api.del key s ≡ stop asserted))
                    ⊎ Blocked api old_keys (erase key kvs))
                  × (db_delete api d rec s ≡ stop asserted))
                ⊎ ((t : S) × (db_delete api d rec s ≡ ok t)
                    × api.Stands t (erase_keys old_keys (erase key kvs)))))
  unfolding db_delete erase_keys
  db_delete-erase rec vals key s kvs checked made limit parallel stands rows =
      elim (api.del-erase s key kvs stands limit) [
        | inl (gone, r, call, done, same) ↦ inl (gone, rw (checked, made, call, done) refl)
        | inr (v, there, inl (crowded, call)) ↦
            let (old_rec, old_keys, before) = rows v there in
            inr (
              v,
              old_rec,
              old_keys,
              there,
              before,
              inl (inl (crowded, call), rw (checked, made, call) refl),
            )
        | inr (v, there, inr (r, call, done, was, after)) ↦
            let (old_rec, old_keys, before) = rows v there in
            inr (
              v,
              old_rec,
              old_keys,
              there,
              before,
              elim (Bool-cases (is_nonempty d.indexes)) [
                | inr bare ↦ inr (
                  r.store,
                  rw (checked, made, call, done, bare) refl,
                  subst (λ l. api.Stands r.store (erase_keys l (erase key kvs)))
                      (sym (no_keys old_rec d.indexes d.index_prefixes old_keys bare before.1))
                      after,
                )
                | inl indexed ↦
                    elim (drop_old-erase key v old_rec old_keys r.store (erase key kvs) parallel
                      before after) [
                        | inl (why, dropped) ↦
                            inl
                              (inr why, rw (checked, made, call, done, indexed, was, dropped) refl)
                        | inr (present, t, dropped, last) ↦
                            inr
                              (t, rw (checked, made, call, done, indexed, was, dropped) refl, last)
                      ]
              ],
            )
      ]
