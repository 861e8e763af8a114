-- ===== src/Storage/Iter/Place/Valid.antt =====
-- BIter::valid and BIter::deref where an iterator stands at a pair of the map.
use sqldb.Base.{
  ℕ, zero, suc, ◌<◌, ◌≡◌, ◌≢◌, sym, ap, ◌∙◌, subst, true, false, [], ◌∷◌, ◌++◌, List, some, length,
  take, get_elem?, get_elem?-lt, ok, arith,
}
use sqldb.Storage.SortedMap.{Pair, Pairs}
use sqldb.Storage.Node.{Entry, BNode, get_key}
use sqldb.Storage.Node.Lookup.{pairs, get_key_at, get_val_at}
use sqldb.Storage.PageManager.{PageManager}
use sqldb.Storage.Iter.{BIter, valid, deref}
use sqldb.Storage.Iter.Place.{Place}

pub over_at : (leaf : BNode) (ups : BIter) → valid ((leaf, leaf.nkeys) ∷ ups) ≡ false
unfolding valid
over_at leaf ups = ground arith

module _ {S : Type 0} (pages : PageManager S) where
  -- An iterator at a pair with a key is valid and returns it.
  pub live_at :
      (s : S) (leaf : BNode) (pos : ℕ) (ups : BIter) (before : Pairs) (kv : Pair) (behind : Pairs)
      → Place pages s leaf pos ups before kv behind
      → 0 < length kv.0
      → (valid ((leaf, pos) ∷ ups) ≡ true) × (deref ((leaf, pos) ∷ ups) ≡ ok kv)
  unfolding valid deref
  live_at s leaf pos ups before kv behind p named =
      let within = get_elem?-lt leaf.entries pos p.entry p.at in
      let key : get_key leaf pos ≡ kv.0 =
        get_key_at leaf pos p.entry p.at ∙ ap (λ k. k.0) (sym p.is_kv) in
      let good : valid ((leaf, pos) ∷ ups) ≡ true =
        key_valid leaf pos ups (omega (arith, p.complete.counted))
          (subst (λ k. 0 < length k) (sym key) named) in
      (
        good,
        rw (good, get_key_at leaf pos p.entry p.at, get_val_at leaf pos p.entry p.at)
            (ap ok (sym p.is_kv)),
      )
    where
      key_valid :
          (leaf : BNode) (pos : ℕ) (ups : BIter)
          → pos < leaf.nkeys
          → 0 < length (get_key leaf pos)
          → valid ((leaf, pos) ∷ ups) ≡ true
      key_valid leaf zero ups within named = ground arith
      key_valid leaf (suc pos) ups within named = ground arith

  -- At the first pair, which has the empty key, it is not.
  pub start_at :
      (s : S) (leaf : BNode) (pos : ℕ) (ups : BIter) (before : Pairs) (kv : Pair) (behind : Pairs)
      → Place pages s leaf pos ups before kv behind
      → before ≡ []
      → length kv.0 ≡ 0
      → valid ((leaf, pos) ∷ ups) ≡ false
  unfolding valid
  start_at s leaf zero ups before kv behind p first bare =
      let key = get_key_at leaf 0 p.entry p.at ∙ ap (λ k. k.0) (sym p.is_kv) in
      ground (arith, bare, ap length key)
  start_at s leaf (suc pos) ups before kv behind p first bare =
      absurd (take_some p.outer_before leaf.entries pos p.entry p.at (sym p.is_before ∙ first))
    where
      take_some :
          (xs : Pairs) (es : List Entry) (i : ℕ) (e : Entry)
          → get_elem? es (suc i) ≡ some e
          → xs ++ pairs (take (suc i) es) ≢ []
      take_some [] [] i e at = cc
      take_some [] (f ∷ es) i e at = λ h. cc
      take_some (x ∷ xs) es i e at = λ h. cc
