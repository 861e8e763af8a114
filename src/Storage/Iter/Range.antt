-- ===== src/Storage/Iter/Range.antt =====
-- BTree::seek, and the loop that its caller runs from there: a range of the map.
use sqldb.Base.{
  reverse, reverse-append, ℕ, zero, suc, ◌<◌, ◌≡◌, refl, sym, ap, ◌∙◌, subst, false, [], ◌∷◌, ◌++◌,
  append-nil, length-append, length, if◌then◌else◌, Bytes, lex_swap, Result, ok, ◌>>=◌, Bool-cases,
  inl, inr, arith,
}
use sqldb.Storage.SortedMap.{Pair, Pairs, AllAbove, AllBelow, AllAbove-append}
use sqldb.Storage.Cmp.{Cmp, cmp_ge, cmp_gt, cmp_lt, cmp_le, cmp_ok, is_forward}
use sqldb.Storage.Node.{BNode}
use sqldb.Storage.PageManager.{PageManager}
use sqldb.Storage.Tree.Get.{IsTree}
use sqldb.Storage.Visits.{visits, matching, in_direction}
use sqldb.Storage.Iter.{BIter, valid, deref, next, prev, seek, seek_le, stands_at}
use sqldb.Storage.Iter.Place.{Place}
use sqldb.Storage.Iter.Place.Valid.{live_at, start_at}
use sqldb.Storage.Iter.Floor.{Less-nonempty, seek_le-Floor}
use sqldb.Storage.Iter.Walk.{seen_back, ahead_at, back_at, ahead_from, back_from}

matching-append :
    (cmp : Cmp) (key : Bytes) (xs ys : Pairs)
    → matching cmp key (xs ++ ys) ≡ matching cmp key xs ++ matching cmp key ys
unfolding matching
matching-append cmp key [] ys = refl
matching-append cmp key (x ∷ xs) ys = elim (Bool-cases (cmp_ok x.0 cmp key)) [
  | inl e ↦ rw e (ap (λ l. x ∷ l) (matching-append cmp key xs ys))
  | inr e ↦ rw e (matching-append cmp key xs ys)
]

matching_above :
    (cmp : Cmp) (key : Bytes) (kvs : Pairs)
    → AllAbove key kvs
    → matching cmp key kvs ≡ (if is_forward cmp then kvs else [])
unfolding matching cmp_ok
matching_above cmp key [] h = ground arith
matching_above cmp_ge key (kv ∷ kvs) (h, hs) =
    rw (lex_swap key kv.0, h) (ap (λ l. kv ∷ l) (matching_above cmp_ge key kvs hs))
matching_above cmp_gt key (kv ∷ kvs) (h, hs) =
    rw (lex_swap key kv.0, h) (ap (λ l. kv ∷ l) (matching_above cmp_gt key kvs hs))
matching_above cmp_lt key (kv ∷ kvs) (h, hs) =
    rw (lex_swap key kv.0, h) (matching_above cmp_lt key kvs hs)
matching_above cmp_le key (kv ∷ kvs) (h, hs) =
    rw (lex_swap key kv.0, h) (matching_above cmp_le key kvs hs)

matching_below :
    (cmp : Cmp) (key : Bytes) (kvs : Pairs)
    → AllBelow key kvs
    → matching cmp key kvs ≡ (if is_forward cmp then [] else kvs)
unfolding matching cmp_ok
matching_below cmp key [] h = ground arith
matching_below cmp_ge key (kv ∷ kvs) (h, hs) = rw h (matching_below cmp_ge key kvs hs)
matching_below cmp_gt key (kv ∷ kvs) (h, hs) = rw h (matching_below cmp_gt key kvs hs)
matching_below cmp_lt key (kv ∷ kvs) (h, hs) =
    rw h (ap (λ l. kv ∷ l) (matching_below cmp_lt key kvs hs))
matching_below cmp_le key (kv ∷ kvs) (h, hs) =
    rw h (ap (λ l. kv ∷ l) (matching_below cmp_le key kvs hs))

matching_at :
    (cmp : Cmp) (key : Bytes) (kv : Pair) (kvs : Pairs)
    → AllAbove key kvs
    → matching cmp key (kv ∷ kvs)
      ≡ (if cmp_ok kv.0 cmp key then kv ∷ [] else []) ++ (if is_forward cmp then kvs else [])
unfolding matching
matching_at cmp key kv kvs h = elim (Bool-cases (cmp_ok kv.0 cmp key)) [
  | inl e ↦ rw e (ap (λ l. kv ∷ l) (matching_above cmp key kvs h))
  | inr e ↦ rw e (matching_above cmp key kvs h)
]

module _ {S : Type 0} (pages : PageManager S) where
  -- The loop in the direction of a relation.
  abbrev pub seen : Cmp → ℕ → S → BIter → Result Pairs
  seen cmp steps s =
      visits (λ it. ok (valid it)) deref
        (λ it. if is_forward cmp then next pages s it else prev pages s it) steps

  none_back :
      (steps : ℕ) (s : S) (iter : BIter)
      → 0 < steps
      → valid iter ≡ false
      → seen_back pages steps s iter ≡ ok []
  unfolding visits
  none_back zero s iter h bad = absurd (omega arith)
  none_back (suc steps) s iter h bad = rw bad refl

  seek_at :
      (fuel root : ℕ) (s : S) (cmp : Cmp) (key : Bytes) (leaf : BNode) (pos : ℕ) (ups : BIter)
      (val : Bytes) (stored before : Pairs) (kv : Pair) (behind : Pairs)
      → seek_le pages fuel root key s ≡ ok ((leaf, pos) ∷ ups)
      → Place pages s leaf pos ups before kv behind
      → ([], val) ∷ stored ≡ before ++ kv ∷ behind
      → AllAbove [] stored
      → AllBelow key before
      → AllAbove key behind
      → (steps : ℕ) → suc (length stored) < steps
      → (seek pages fuel root key cmp s >>= λ iter. seen cmp steps s iter)
        ≡ ok (in_direction cmp (matching cmp key stored))
  unfolding seek stands_at
  seek_at fuel root s cmp key leaf pos ups val stored [] kv behind done p whole named below above
        steps more =
      let first : kv ≡ ([], val) = cc in
      let all : stored ≡ behind = cc in
      let bad = start_at pages s leaf pos ups [] kv behind p refl (ap (λ k. length k.0) first) in
      let range = ap (matching cmp key) all ∙ matching_above cmp key behind above in
      let (next, step, goes) =
        ahead_at pages steps s leaf pos ups [] kv behind p (subst (AllAbove []) all named)
          (omega (arith, ap length all)) in
      elim (Bool-cases (is_forward cmp)) [
        | inl e ↦
            let all_of : matching cmp key stored ≡ behind = range ∙ rw e refl in
            rw (done, bad, e, step) (goes ∙ ap ok (sym all_of))
        | inr e ↦
            let none_of : matching cmp key stored ≡ [] = range ∙ rw e refl in
            rw (done, bad, e)
              (none_back steps s ((leaf, pos) ∷ ups) (omega arith) bad
                ∙ ap (λ l. ok (reverse l)) (sym none_of))
      ]
  seek_at fuel root s cmp key leaf pos ups val stored (b ∷ bs) kv behind done p whole named below
        above steps more =
      let first : b ≡ ([], val) = cc in
      let all : stored ≡ bs ++ kv ∷ behind = cc in
      let bare = ap (λ k. length k.0) first in
      let (low, (here, high)) =
        AllAbove-append [] bs (kv ∷ behind) (subst (AllAbove []) all named) in
      let key_there = Less-nonempty [] kv.0 here in
      let counted = ap length all ∙ length-append bs (kv ∷ behind) in
      let (good, value) = live_at pages s leaf pos ups (b ∷ bs) kv behind p key_there in
      let range : matching cmp key stored
          ≡ (if is_forward cmp then [] else bs)
            ++ ((if cmp_ok kv.0 cmp key then kv ∷ [] else [])
                ++ (if is_forward cmp then behind else [])) =
        ap (matching cmp key) all
        ∙ matching-append cmp key bs (kv ∷ behind)
        ∙ ap (λ l. l ++ matching cmp key (kv ∷ behind)) (matching_below cmp key bs below.1)
        ∙ ap (λ l. (if is_forward cmp then [] else bs) ++ l)
            (matching_at cmp key kv behind above) in
      elim (Bool-cases (is_forward cmp)) [
        | inl e ↦ elim (Bool-cases (cmp_ok kv.0 cmp key)) [
          | inl m ↦
              rw (done, good, value, m, e)
                (ahead_from pages steps s leaf pos ups (b ∷ bs) kv behind p (here, high)
                    (omega arith)
                  ∙ ap ok (sym (range ∙ rw (e, m) refl)))
          | inr m ↦
              let (next, step, goes) =
                ahead_at pages steps s leaf pos ups (b ∷ bs) kv behind p high (omega arith) in
              rw (done, good, value, m, e, step) (goes ∙ ap ok (sym (range ∙ rw (e, m) refl)))
        ]
        | inr e ↦ elim (Bool-cases (cmp_ok kv.0 cmp key)) [
          | inl m ↦
              let up_to : matching cmp key stored ≡ bs ++ kv ∷ [] = range ∙ rw (e, m) refl in
              rw (done, good, value, m, e)
                (back_from pages steps s leaf pos ups b kv bs behind p bare low key_there
                    (omega arith)
                  ∙ ap ok (sym (ap reverse up_to ∙ reverse-append bs (kv ∷ []))))
          | inr m ↦
              let below_it : matching cmp key stored ≡ bs = range ∙ rw (e, m) (append-nil bs) in
              let (back, step, goes) =
                back_at pages steps s leaf pos ups b kv bs behind p bare low (omega arith) in
              rw (done, good, value, m, e, step) (goes ∙ ap (λ l. ok (reverse l)) (sym below_it))
        ]
      ]

  -- In a tree with a root, and with fuel beyond its height: a seek, and from there the loop in the direction of
  -- the relation, visit the pairs whose key has the relation to the given one, in the order of their keys or
  -- against it, all of them and no other, less the pair with the empty key. Steps beyond the number of pairs
  -- are enough.
  pub seek-matching :
      (h fuel root : ℕ) (s : S) (cmp : Cmp) (key val : Bytes) (stored : Pairs) (steps : ℕ)
      → h < fuel
      → IsTree pages h root s (([], val) ∷ stored)
      → suc (length stored) < steps
      → (seek pages fuel root key cmp s >>= λ iter. seen cmp steps s iter)
        ≡ ok (in_direction cmp (matching cmp key stored))
  seek-matching h fuel root s cmp key val stored steps deep holds more =
      let (leaf, pos, ups, done, f, sorted) =
        seek_le-Floor pages h fuel root s key val stored deep holds in
      seek_at fuel root s cmp key leaf pos ups val stored f.before f.kv f.behind done f.place
        f.whole sorted.0 f.below f.above steps more
