-- ===== src/Storage/Iter/Walk.antt =====
-- The loops of the callers of an iterator: they read a pair and step, until the iterator is at no pair.
use sqldb.Base.{
  reverse, reverse-append, ℕ, zero, suc, ◌<◌, ◌≡◌, refl, sym, ap, ◌∙◌, subst, [], ◌∷◌, ◌++◌,
  length-append, length, Result, ok, inl, inr, arith,
}
use sqldb.Storage.SortedMap.{Pair, Pairs, AllAbove, AllAbove-append}
use sqldb.Storage.Node.{BNode}
use sqldb.Storage.PageManager.{PageManager}
use sqldb.Storage.Visits.{visits}
use sqldb.Storage.Iter.{BIter, valid, deref, next, prev}
use sqldb.Storage.Iter.Place.{Place}
use sqldb.Storage.Iter.Place.Valid.{live_at, start_at, over_at}
use sqldb.Storage.Iter.Place.Next.{next-Place}
use sqldb.Storage.Iter.Place.Prev.{prev-Place}
use sqldb.Storage.Iter.Floor.{Less-nonempty}

module _ {S : Type 0} (pages : PageManager S) where
  -- The loop of a caller that goes on, and of one that goes back.
  abbrev pub seen_ahead : ℕ → S → BIter → Result Pairs
  seen_ahead steps s = visits (λ it. ok (valid it)) deref (λ it. next pages s it) steps

  abbrev pub seen_back : ℕ → S → BIter → Result Pairs
  seen_back steps s = visits (λ it. ok (valid it)) deref (λ it. prev pages s it) steps

  pub ahead_at :
      (steps : ℕ) (s : S) (leaf : BNode) (pos : ℕ) (ups : BIter) (before : Pairs) (kv : Pair)
      (behind : Pairs)
      → Place pages s leaf pos ups before kv behind
      → AllAbove [] behind
      → length behind < steps
      → (on : BIter) × (next pages s ((leaf, pos) ∷ ups) ≡ ok on)
        × (seen_ahead steps s on ≡ ok behind)
  unfolding visits
  ahead_at zero s leaf pos ups before kv behind p named deep = absurd (omega arith)
  ahead_at (suc steps) s leaf pos ups before kv behind p named deep =
      elim (next-Place pages s leaf pos ups before kv behind p) [
        | inl (done, call) ↦
            ((leaf, leaf.nkeys) ∷ ups, call, rw (over_at leaf ups) (ap ok (sym done)))
        | inr (on, i, levels, later, rest, call, split, place) ↦
            let (key, keys) = subst (AllAbove []) split named in
            let (good, value) =
              live_at pages s on i levels (before ++ kv ∷ []) later rest place
                (Less-nonempty [] later.0 key) in
            let (_, step, goes) =
              ahead_at steps s on i levels (before ++ kv ∷ []) later rest place keys
                (omega (arith, ap length split)) in
            ((on, i) ∷ levels, call, rw (good, value, step, goes) (ap ok (sym split)))
      ]

  pub back_at :
      (steps : ℕ) (s : S) (leaf : BNode) (pos : ℕ) (ups : BIter) (first kv : Pair)
      (bs behind : Pairs)
      → Place pages s leaf pos ups (first ∷ bs) kv behind
      → length first.0 ≡ 0
      → AllAbove [] bs
      → length bs < steps
      → (back : BIter) × (prev pages s ((leaf, pos) ∷ ups) ≡ ok back)
        × (seen_back steps s back ≡ ok (reverse bs))
  unfolding visits
  back_at zero s leaf pos ups first kv bs behind p bare named deep = absurd (omega arith)
  back_at (suc steps) s leaf pos ups first kv bs behind p bare named deep =
      elim (prev-Place pages s leaf pos ups (first ∷ bs) kv behind p) [
        | inl (done, call) ↦ cc
        | inr (back, i, levels, sooner, [], call, split, place) ↦
            let same : first ≡ sooner = cc in
            let alone : [] ≡ bs = cc in
            let bad =
              start_at pages s back i levels [] sooner (kv ∷ behind) place refl
                (ap (λ k. length k.0) (sym same) ∙ bare) in
            ((back, i) ∷ levels, call, rw bad (ap (λ l. ok (reverse l)) alone))
        | inr (back, i, levels, sooner, (b ∷ rest), call, split, place) ↦
            let same : b ≡ first = cc in
            let parts : rest ++ sooner ∷ [] ≡ bs = cc in
            let (below, (key, _)) =
              AllAbove-append [] rest (sooner ∷ []) (subst (AllAbove []) (sym parts) named) in
            let (good, value) =
              live_at pages s back i levels (b ∷ rest) sooner (kv ∷ behind) place
                (Less-nonempty [] sooner.0 key) in
            let (_, step, goes) =
              back_at steps s back i levels b sooner rest (kv ∷ behind) place
                (ap (λ k. length k.0) same ∙ bare) below
                (omega (arith, ap length (sym parts), length-append rest (sooner ∷ []))) in
            (
              (back, i) ∷ levels,
              call,
              rw (good, value, step, goes)
                  (ap ok (sym (reverse-append rest (sooner ∷ [])) ∙ ap reverse parts)),
            )
      ]

  -- The loops from a pair with a key on.
  pub ahead_from :
      (steps : ℕ) (s : S) (leaf : BNode) (pos : ℕ) (ups : BIter) (before : Pairs) (kv : Pair)
      (behind : Pairs)
      → Place pages s leaf pos ups before kv behind
      → AllAbove [] (kv ∷ behind)
      → suc (length behind) < steps
      → seen_ahead steps s ((leaf, pos) ∷ ups) ≡ ok (kv ∷ behind)
  unfolding visits
  ahead_from zero s leaf pos ups before kv behind p named deep = absurd (omega arith)
  ahead_from (suc steps) s leaf pos ups before kv behind p (key, keys) deep =
      let (good, value) =
        live_at pages s leaf pos ups before kv behind p (Less-nonempty [] kv.0 key) in
      let (_, step, goes) = ahead_at steps s leaf pos ups before kv behind p keys (omega arith) in
      rw (good, value, step, goes) refl

  pub back_from :
      (steps : ℕ) (s : S) (leaf : BNode) (pos : ℕ) (ups : BIter) (first kv : Pair)
      (bs behind : Pairs)
      → Place pages s leaf pos ups (first ∷ bs) kv behind
      → length first.0 ≡ 0
      → AllAbove [] bs
      → 0 < length kv.0
      → suc (length bs) < steps
      → seen_back steps s ((leaf, pos) ∷ ups) ≡ ok (kv ∷ reverse bs)
  unfolding visits
  back_from zero s leaf pos ups first kv bs behind p bare named key deep = absurd (omega arith)
  back_from (suc steps) s leaf pos ups first kv bs behind p bare named key deep =
      let (good, value) = live_at pages s leaf pos ups (first ∷ bs) kv behind p key in
      let (_, step, goes) =
        back_at steps s leaf pos ups first kv bs behind p bare named (omega arith) in
      rw (good, value, step, goes) refl
