-- ===== src/Storage/Iter/Place.antt =====
-- Where an iterator stands in the map: its pair, those before it and those behind it.
pub mod Next
pub mod Prev
pub mod Valid
use sqldb.Base.{
  ℕ, zero, suc, ◌+◌, ◌-◌, ◌<◌, ◌≤◌, ◌≡◌, ◌≢◌, refl, sym, ap, ◌∙◌, subst, Bool, true, false, List,
  [], ◌∷◌, ◌++◌, append-nil, append_assoc, Option, none, some, length, length-drop, take_all,
  drop_all, ltb, get_elem?, get_elem?-some, get_elem?-lt, take, drop, Bytes, lex, Result, ok, stop,
  asserted, ◌>>=◌, Bool-cases, ◌⊎◌, inl, inr, arith,
}
use sqldb.Storage.SortedMap.{Pair, Pairs}
use sqldb.Storage.Node.{Entry, BNode, get_key, get_val, get_ptr}
use sqldb.Storage.Node.Build.{IsComplete}
use sqldb.Storage.Node.Lookup.{pairs, get_key_at, get_val_at, get_ptr_at}
use sqldb.Storage.PageManager.{PageManager}
use sqldb.Storage.Tree.Shape.{Child, Holds}
use sqldb.Storage.Iter.{BIter, valid, deref, next, prev, iter_next, iter_prev, reload_kid}
use sqldb.Storage.Iter.Spine.{Spine}

pub pairs-drop :
    (es : List Entry) (i : ℕ) (e : Entry)
    → get_elem? es i ≡ some e
    → pairs (drop i es) ≡ (e.key, e.val) ∷ pairs (drop (suc i) es)
pairs-drop [] i e at = cc
pairs-drop (f ∷ es) zero e at = ground (arith, at)
pairs-drop (f ∷ es) (suc i) e at = pairs-drop es i e at

pub pairs-take :
    (es : List Entry) (i : ℕ) (e : Entry)
    → get_elem? es i ≡ some e
    → pairs (take (suc i) es) ≡ pairs (take i es) ++ (e.key, e.val) ∷ []
pairs-take [] i e at = cc
pairs-take (f ∷ es) zero e at = ground (arith, at)
pairs-take (f ∷ es) (suc i) e at = ap (λ l. (f.key, f.val) ∷ l) (pairs-take es i e at)

module _ {S : Type 0} (pages : PageManager S) where
  -- An iterator, as a leaf with a position and the levels above, at a pair of the map with those before and
  -- behind it.
  pub record Place (s : S) (leaf : BNode) (pos : ℕ) (ups : BIter) (before : Pairs) (kv : Pair)
      (behind : Pairs) : Type 0 where
    pub entry : Entry
    pub at : get_elem? leaf.entries pos ≡ some entry
    pub complete : IsComplete leaf
    pub outer_before : Pairs
    pub outer_behind : Pairs
    pub spine : Spine pages 0 s ups outer_before (pairs leaf.entries) outer_behind
    pub is_before : before ≡ outer_before ++ pairs (take pos leaf.entries)
    pub is_kv : kv ≡ (entry.key, entry.val)
    pub is_behind : behind ≡ pairs (drop (suc pos) leaf.entries) ++ outer_behind

  pub up_to :
      {s : S} {leaf : BNode} {pos : ℕ} {ups : BIter} {before : Pairs} {kv : Pair} {behind : Pairs}
      (p : Place s leaf pos ups before kv behind)
      → pairs (take (suc pos) leaf.entries) ≡ pairs (take pos leaf.entries) ++ kv ∷ []
  up_to {leaf = leaf} {pos = pos} p =
      pairs-take leaf.entries pos p.entry p.at
      ∙ ap (λ k. pairs (take pos leaf.entries) ++ k ∷ []) (sym p.is_kv)

  pub here :
      {s : S} {leaf : BNode} {pos : ℕ} {ups : BIter} {before : Pairs} {kv : Pair} {behind : Pairs}
      (p : Place s leaf pos ups before kv behind)
      → kv ∷ behind ≡ pairs (drop pos leaf.entries) ++ p.outer_behind
  here {leaf = leaf} {pos = pos} {kv = kv} p =
      ap (λ m. kv ∷ m) p.is_behind
      ∙ ap (λ k. k ∷ (pairs (drop (suc pos) leaf.entries) ++ p.outer_behind)) p.is_kv
      ∙ ap (λ m. m ++ p.outer_behind) (sym (pairs-drop leaf.entries pos p.entry p.at))

  -- The pairs up to the last one of a leaf.
  pub through :
      {s : S} {leaf : BNode} {pos : ℕ} {ups : BIter} {before : Pairs} {kv : Pair} {behind : Pairs}
      (p : Place s leaf pos ups before kv behind)
      → length leaf.entries ≤ suc pos
      → p.outer_before ++ pairs leaf.entries ≡ before ++ kv ∷ []
  through {leaf = leaf} {pos = pos} {kv = kv} p short =
      ap (λ m. p.outer_before ++ m)
        (sym (ap pairs (take_all (suc pos) leaf.entries short)) ∙ up_to p)
      ∙ sym (append_assoc p.outer_before (pairs (take pos leaf.entries)) (kv ∷ []))
      ∙ ap (λ m. m ++ kv ∷ []) (sym p.is_before)
