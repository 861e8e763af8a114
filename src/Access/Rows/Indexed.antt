-- ===== src/Access/Rows/Indexed.antt =====
-- What the index keys of a row do to the map, for index_op.
use sqldb.Base.{
  ℕ, ◌≡◌, ◌≢◌, refl, sym, subst, ◌∙◌, List, [], ◌∷◌, none, some, Bytes, Result, ok, stop, asserted,
  ◌>>=◌, >>=-eq-ok, ok-injective, Option-cases, ◌⊎◌, inl, inr, All, arith,
}
use sqldb.Catalog.Record.{Record}
use sqldb.Storage.SortedMap.{Pairs, find, put, erase, find-put_ne}
use sqldb.Storage.Tree.{check_limit}
use sqldb.Storage.Tree.Versions.{check_limit-key}
use sqldb.Storage.Kv.Tx.{insert_only}
use sqldb.Storage.Kv.Api.{Api}
use sqldb.Access.Rows.{index_key, index_write, index_loop, index_add, index_del}

-- The keys of a row in its indexes.
unfoldable pub index_keys : Record → List (List Bytes) → List ℕ → Result (List Bytes)
index_keys rec [] prefixes = ok []
index_keys rec (cols ∷ indexes) [] = stop asserted
index_keys rec (cols ∷ indexes) (prefix ∷ prefixes) = do
  key ← index_key rec cols prefix
  keys ← index_keys rec indexes prefixes
  ok (key ∷ keys)

-- The map with those keys, and the map without them.
unfoldable pub put_keys : List Bytes → Pairs → Pairs
put_keys [] kvs = kvs
put_keys (k ∷ ks) kvs = put_keys ks (put k [] kvs)

unfoldable pub erase_keys : List Bytes → Pairs → Pairs
erase_keys [] kvs = kvs
erase_keys (k ∷ ks) kvs = erase_keys ks (erase k kvs)

-- No key is there at its turn; and each one is.
abbrev pub Fresh : List Bytes → Pairs → Type 0
Fresh [] kvs = Unit
Fresh (k ∷ ks) kvs = (find k kvs ≡ none) × Fresh ks (put k [] kvs)

abbrev pub Present : List Bytes → Pairs → Type 0
Present [] kvs = Unit
Present (k ∷ ks) kvs = (find k kvs ≢ none) × Present ks (erase k kvs)

-- A pair that was there before fresh keys is there behind them.
pub find-put_keys :
    (key val : Bytes) (ks : List Bytes) (kvs : Pairs)
    → find key kvs ≡ some val
    → Fresh ks kvs
    → find key (put_keys ks kvs) ≡ some val
unfolding put_keys
find-put_keys key val [] kvs there fresh = there
find-put_keys key val (k ∷ ks) kvs there (new, fresh) =
    find-put_keys key val ks (put k [] kvs)
      (find-put_ne key k [] kvs (λ e. ground (arith, e, new, there)) ∙ there) fresh

abbrev pub AreShort : List Bytes → Type 0
AreShort = All (λ k. check_limit k [] ≡ ok tt)

index_keys-cons :
    (rec : Record) (cols : List Bytes) (indexes : List (List Bytes)) (prefix : ℕ)
    (prefixes : List ℕ) (keys : List Bytes)
    → index_keys rec (cols ∷ indexes) (prefix ∷ prefixes) ≡ ok keys
    → (k : Bytes) × (ks : List Bytes) × (keys ≡ k ∷ ks)
      × (index_key rec cols prefix ≡ ok k)
      × (index_keys rec indexes prefixes ≡ ok ks)
unfolding index_keys
index_keys-cons rec cols indexes prefix prefixes keys named =
    let (k, made, later) = >>=-eq-ok (index_key rec cols prefix) _ named in
    let (ks, others, same) = >>=-eq-ok (index_keys rec indexes prefixes) _ later in
    (k, ks, sym (ok-injective same), made, others)

module _ {S : Type 0} (api : Api S) where
  index_write-add :
      (key : Bytes) (s : S) (kvs : Pairs)
      → api.Stands s kvs
      → check_limit key [] ≡ ok tt
      → ((find key kvs ≢ none) × (index_write api index_add key s ≡ stop asserted))
        ⊎ ((find key kvs ≡ none)
            × (t : S) × (index_write api index_add key s ≡ ok t)
            × api.Stands t (put key [] kvs))
  unfolding index_write
  index_write-add key s kvs stands limit =
      let (r, call, added, old, allowed, refused) =
        api.update-put s insert_only key [] kvs stands limit in
      elim (Option-cases (find key kvs)) [
        | inl gone ↦
            let (done, after) = allowed gone in inr (gone, r.store, rw (call, done) refl, after)
        | inr (v, there) ↦
            let taken : find key kvs ≢ none = λ e. ground (arith, e, there) in
            inl (taken, rw (call, (refused taken).0) refl)
      ]

  -- The additions of index_op, for a row with index keys within the limits, run into the assertion where
  -- one of the keys is already there, and else add them all.
  pub index_loop-add :
      (rec : Record) (indexes : List (List Bytes)) (prefixes : List ℕ) (keys : List Bytes) (s : S)
      (kvs : Pairs)
      → index_keys rec indexes prefixes ≡ ok keys
      → AreShort keys
      → api.Stands s kvs
      → (¬ (Fresh keys kvs) × (index_loop api index_add rec indexes prefixes s ≡ stop asserted))
        ⊎ (Fresh keys kvs
            × (t : S) × (index_loop api index_add rec indexes prefixes s ≡ ok t)
            × api.Stands t (put_keys keys kvs))
  unfolding index_loop index_keys put_keys
  index_loop-add rec [] prefixes [] s kvs named short stands = inr (tt, s, refl, stands)
  index_loop-add rec [] prefixes (k ∷ ks) s kvs named short stands = cc
  index_loop-add rec (cols ∷ indexes) [] keys s kvs named short stands = cc
  index_loop-add rec (cols ∷ indexes) (prefix ∷ prefixes) keys s kvs named short stands =
      let (k, ks, same, made, others) =
        index_keys-cons rec cols indexes prefix prefixes keys named in
      let (small, smalls) = subst AreShort same short in
      elim (index_write-add k s kvs stands small) [
        | inl (there, call) ↦
            inl (λ fresh. there (subst (λ l. Fresh l kvs) same fresh).0, rw (made, call) refl)
        | inr (new, t, call, after) ↦
            elim (index_loop-add rec indexes prefixes ks t (put k [] kvs) others smalls after) [
              | inl (stale, rest) ↦ inl (
                λ fresh. stale (subst (λ l. Fresh l kvs) same fresh).1,
                rw (made, call, rest) refl,
              )
              | inr (fresh, u, rest, last) ↦ inr (
                subst (λ l. Fresh l kvs) (sym same) (new, fresh),
                u,
                rw (made, call, rest) refl,
                subst (λ l. api.Stands u (put_keys l kvs)) (sym same) last,
              )
            ]
      ]

  -- Why the removal of those keys, one after the other, can stop: at its turn one of them is not there, or
  -- the removal stops at an assertion of the tree, in a crowded state.
  abbrev pub Blocked : List Bytes → Pairs → Type 0
  Blocked [] kvs = ⊥
  Blocked (k ∷ ks) kvs =
      ((find k kvs ≡ none)
        ⊎ ((u : S) × api.Stands u kvs × api.Crowded u × (api.remove k u ≡ stop asserted)))
      ⊎ Blocked ks (erase k kvs)

  index_write-del :
      (key : Bytes) (s : S) (kvs : Pairs)
      → api.Stands s kvs
      → check_limit key [] ≡ ok tt
      → (((find key kvs ≡ none)
            ⊎ ((u : S) × api.Stands u kvs × api.Crowded u × (api.remove key u ≡ stop asserted)))
          × (index_write api index_del key s ≡ stop asserted))
        ⊎ ((find key kvs ≢ none)
            × (t : S) × (index_write api index_del key s ≡ ok t)
            × api.Stands t (erase key kvs))
  unfolding index_write
  index_write-del key s kvs stands limit =
      elim (api.remove-erase s key kvs stands (check_limit-key key [] limit)) [
        | inl (inl (crowded, call)) ↦ inl (inr (s, stands, crowded, call), rw call refl)
        | inl (inr (call, gone)) ↦ inl (inl gone, rw call refl)
        | inr (t, call, there, after) ↦ inr (there, t, rw call refl, after)
      ]

  -- The removals of index_op, for a row with index keys within the limits, run into an assertion for
  -- one of those reasons, or each key was there and all of them are gone.
  pub index_loop-del :
      (rec : Record) (indexes : List (List Bytes)) (prefixes : List ℕ) (keys : List Bytes) (s : S)
      (kvs : Pairs)
      → index_keys rec indexes prefixes ≡ ok keys
      → AreShort keys
      → api.Stands s kvs
      → (Blocked keys kvs × (index_loop api index_del rec indexes prefixes s ≡ stop asserted))
        ⊎ (Present keys kvs
            × (t : S) × (index_loop api index_del rec indexes prefixes s ≡ ok t)
            × api.Stands t (erase_keys keys kvs))
  unfolding index_loop index_keys erase_keys
  index_loop-del rec [] prefixes [] s kvs named short stands = inr (tt, s, refl, stands)
  index_loop-del rec [] prefixes (k ∷ ks) s kvs named short stands = cc
  index_loop-del rec (cols ∷ indexes) [] keys s kvs named short stands = cc
  index_loop-del rec (cols ∷ indexes) (prefix ∷ prefixes) keys s kvs named short stands =
      let (k, ks, same, made, others) =
        index_keys-cons rec cols indexes prefix prefixes keys named in
      let (small, smalls) = subst AreShort same short in
      elim (index_write-del k s kvs stands small) [
        | inl (why, call) ↦
            inl (subst (λ l. Blocked l kvs) (sym same) (inl why), rw (made, call) refl)
        | inr (there, t, call, after) ↦
            elim (index_loop-del rec indexes prefixes ks t (erase k kvs) others smalls after) [
              | inl (why, rest) ↦
                  inl (subst (λ l. Blocked l kvs) (sym same) (inr why), rw (made, call, rest) refl)
              | inr (present, u, rest, last) ↦ inr (
                subst (λ l. Present l kvs) (sym same) (there, present),
                u,
                rw (made, call, rest) refl,
                subst (λ l. api.Stands u (erase_keys l kvs)) (sym same) last,
              )
            ]
      ]
