-- ===== src/Storage/Tree/Leaf.antt =====
-- The leaf case of tree_insert puts the pair among those of the leaf.
use sqldb.Base.{
  ℕ, zero, suc, ◌+◌, ◌-◌, ◌*◌, ◌≤◌, ◌≡◌, refl, sym, ap, ◌∙◌, subst, List, [], ◌∷◌, ◌++◌,
  append_assoc, length, take, drop, get_elem?, get_elem?-some, Bytes, bytes_eq, bytes_eq_iff,
  lex-eq, lex_swap, lex_refl, some, ok, Bool-cases, inl, inr, arith,
}
use sqldb.Storage.SortedMap.{Pairs, Sorted, put, put-append, put_above}
use sqldb.Storage.Node.{
  Entry, BNode, offset, set_header, append_all, bnode_leaf, btree_page_size, btree_max_key_size,
  btree_max_val_size,
}
use sqldb.Storage.Node.Build.{
  IsComplete, used, splice, build-ok, length-splice, offset-splice, All-splice, leaf_insert-pieces,
  leaf_update-pieces,
}
use sqldb.Storage.Node.Split.{max_entry}
use sqldb.Storage.Node.Lookup.{pairs, IsFloor, get_key_at}
use sqldb.Storage.PageManager.{PageManager}
use sqldb.Storage.Tree.{leaf_put}
use sqldb.Storage.Tree.Parts.{pairs-append}
use sqldb.Storage.Tree.Get.{entries_at, leaf_order}

pub pairs-splice :
    (es new : List Entry) (i j : ℕ)
    → pairs (splice es i new j) ≡ pairs (take i es) ++ (pairs new ++ pairs (drop j es))
pairs-splice es new i j =
    pairs-append (take i es) (new ++ drop j es)
    ∙ ap (λ l. pairs (take i es) ++ l) (pairs-append new (drop j es))

pairs_upto :
    (es : List Entry) (i : ℕ) (e : Entry)
    → get_elem? es i ≡ some e
    → pairs (take (suc i) es) ≡ pairs (take i es) ++ (e.key, e.val) ∷ []
pairs_upto [] i e at = cc
pairs_upto (f ∷ es) zero e at = ground (arith, at)
pairs_upto (f ∷ es) (suc i) e at = ap (λ l. (f.key, f.val) ∷ l) (pairs_upto es i e at)

-- A leaf of pairs, with room for one entry more than a page.
pub record Leaf (n : BNode) (kvs : Pairs) : Type 0 where
  pub is_leaf : n.btype ≡ bnode_leaf
  pub complete : IsComplete n
  pub bound : used n.entries ≤ btree_page_size + max_entry
  pub same : pairs n.entries ≡ kvs

module _ (n : BNode) (key val : Bytes) (complete : IsComplete n)
    (small : used n.entries ≤ btree_page_size) (key_limit : length key ≤ btree_max_key_size)
    (val_limit : length val ≤ btree_max_val_size) where
  abbrev new : List Entry
  new = record { ptr = 0; key = key; val = val } ∷ []

  -- A leaf with the piece between two indices replaced by the new entry.
  spliced :
      (i j : ℕ)
      → i ≤ j
      → j ≤ length n.entries
      → (count : ℕ) → count + (j - i) ≡ n.nkeys + 1
      → (append_all (2 * btree_page_size) (splice n.entries i new j) (set_header bnode_leaf count)
          ≡ ok (record { btype = bnode_leaf; nkeys = count; entries = splice n.entries i new j }))
        × Leaf
            (record { btype = bnode_leaf; nkeys = count; entries = splice n.entries i new j })
            (pairs (take i n.entries) ++ (key, val) ∷ pairs (drop j n.entries))
  unfolding offset
  spliced i j le within count counts =
      let lengths = length-splice n.entries new i j le within in
      let fits = All-splice n.entries new i j complete.fitting ((key_limit, val_limit), tt) in
      let bound : used (splice n.entries i new j) ≤ btree_page_size + max_entry =
        omega (arith, lengths, offset-splice n.entries new i j le) in
      let counted : count ≡ length (splice n.entries i new j) = omega (arith, complete.counted) in
      (
        build-ok (2 * btree_page_size) bnode_leaf count (splice n.entries i new j) (omega arith)
            fits counted (omega (arith, bound)),
        record {
          is_leaf = refl;
          complete = record { counted = counted; fitting = fits };
          bound = bound;
          same = pairs-splice n.entries new i j;
        },
      )

  -- Where the lookup found a floor, the leaf gets the pair.
  pub leaf_put-Leaf :
      {S : Type 0} (pages : PageManager S) (i : ℕ)
      → Sorted (pairs n.entries)
      → IsFloor n key (some i)
      → (m : BNode) × (leaf_put pages n (some i) key val ≡ ok m)
        × Leaf m (put key val (pairs n.entries))
  unfolding leaf_put put
  leaf_put-Leaf pages i sorted floor =
      let (f, at) = get_elem?-some n.entries i floor.0 in
      let (below, above, le) = leaf_order n i f key sorted at floor in
      let next : i + 1 ≡ suc i = omega arith in
      let here : put key val (pairs n.entries)
          ≡ pairs (take i n.entries)
            ++ put key val ((f.key, f.val) ∷ pairs (drop (suc i) n.entries)) =
        ap (put key val) (entries_at n.entries i f at)
        ∙ put-append key val (pairs (take i n.entries)) _ below in
      elim (Bool-cases (bytes_eq f.key key)) [
        | inl same ↦
            let (built, leaf) =
              spliced i (i + 1) (omega arith) (omega (arith, floor.0)) n.nkeys (omega arith) in
            let there : put key val ((f.key, f.val) ∷ pairs (drop (suc i) n.entries))
                ≡ (key, val) ∷ pairs (drop (i + 1) n.entries) =
              ground (arith, bytes_eq_iff f.key key, lex_refl key, next) in
            (
              _,
              rw (get_key_at n i f at, same)
                  (leaf_update-pieces (2 * btree_page_size) n complete i key val ∙ built),
              subst (Leaf _) (sym (here ∙ ap (λ l. pairs (take i n.entries) ++ l) there)) leaf,
            )
        | inr other ↦
            let (built, leaf) =
              spliced (i + 1) (i + 1) (omega arith) (omega (arith, floor.0)) (n.nkeys + 1)
                (omega arith) in
            let there : put key val ((f.key, f.val) ∷ pairs (drop (suc i) n.entries))
                ≡ (f.key, f.val) ∷ (key, val) ∷ pairs (drop (suc i) n.entries) =
              ground (
                arith,
                bytes_eq_iff f.key key,
                lex_swap f.key key,
                lex-eq f.key key,
                le,
                put_above key val (pairs (drop (suc i) n.entries)) above,
              ) in
            let whole : put key val (pairs n.entries)
                ≡ pairs (take (i + 1) n.entries) ++ (key, val) ∷ pairs (drop (i + 1) n.entries) =
              here
              ∙ ap (λ l. pairs (take i n.entries) ++ l) there
              ∙ sym (append_assoc (pairs (take i n.entries)) ((f.key, f.val) ∷ []) _)
              ∙ ap (λ l. l ++ (key, val) ∷ pairs (drop (suc i) n.entries))
                  (sym (pairs_upto n.entries i f at))
              ∙ ap (λ k. pairs (take k n.entries) ++ (key, val) ∷ pairs (drop k n.entries))
                  (sym next) in
            (
              _,
              rw (get_key_at n i f at, other)
                  (leaf_insert-pieces (2 * btree_page_size) n complete (i + 1) key val ∙ built),
              subst (Leaf _) (sym whole) leaf,
            )
      ]
