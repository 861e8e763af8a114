-- ===== src/Storage/Node/Build.antt =====
-- What the functions that build a node leave in it, where the buffer has room.
use sqldb.Base.{
  ℕ, zero, suc, ◌+◌, ◌-◌, ◌%◌, ◌^◌, ◌≤◌, ◌<◌, ◌≡◌, refl, sym, ap, ◌∙◌, List, [], ◌∷◌, ◌++◌,
  append-nil, append_assoc, length, length-append, take, drop, take-append-drop, length-take,
  length-drop, Bytes, ok, ◌>>=◌, All, All-append, Result-cases, inl, inr, arith, drop-drop,
}
use sqldb.Storage.Node.{
  Entry, BNode, offset, kv_base_offset, set_header, node_append_kv, append_all, node_append_range,
  leaf_insert, leaf_update, leaf_delete, bnode_leaf, btree_max_key_size, btree_max_val_size,
}

-- An entry within the limits of the tree.
abbrev pub Fits : Entry → Type 0
Fits e = (length e.key ≤ btree_max_key_size) × (length e.val ≤ btree_max_val_size)

-- The bytes of a node with these entries.
abbrev pub used : List Entry → ℕ
used es = kv_base_offset (length es) + offset es

-- Every entry that the header counts is there, and fits.
pub record IsComplete (n : BNode) : Type 0 where
  pub counted : n.nkeys ≡ length n.entries
  pub fitting : All Fits n.entries

pub offset-append : (xs ys : List Entry) → offset (xs ++ ys) ≡ offset xs + offset ys
unfolding offset
offset-append [] ys = omega arith
offset-append (x ∷ xs) ys = omega (arith, offset-append xs ys)

pub append_all-append :
    (size : ℕ) (xs ys : List Entry) (n : BNode)
    → append_all size (xs ++ ys) n ≡ (append_all size xs n >>= append_all size ys)
unfolding append_all
append_all-append size [] ys n = refl
append_all-append size (x ∷ xs) ys n = elim (Result-cases (node_append_kv size x n)) [
  | inl (m, e) ↦ ground (arith, e, append_all-append size xs ys m)
  | inr (why, e) ↦ ground (arith, e)
]

-- Entries that fit, and for which the buffer has room, are appended.
pub append_all-ok :
    (size : ℕ) (es : List Entry) (n : BNode)
    → size < 2 ^ 16
    → All Fits es
    → kv_base_offset n.nkeys + offset n.entries + offset es ≤ size
    → append_all size es n ≡ ok (record n { entries = n.entries ++ es })
unfolding append_all node_append_kv offset
append_all-ok size [] n small fits room = rw (append-nil n.entries) refl
append_all-ok size (e ∷ es) n small (fit, fits) room =
    let next = record n { entries = n.entries ++ e ∷ [] } in
    let step : node_append_kv size e n ≡ ok next = ground arith in
    let later =
      append_all-ok size es next small fits (omega (arith, offset-append n.entries (e ∷ []))) in
    rw step (later ∙ ap (λ l. ok (record n { entries = l })) (append_assoc n.entries (e ∷ []) es))

-- The pieces of a list of entries.
pub All-take {ℓ κ} :
    {A : Type ℓ} (P : A → Type κ) (n : ℕ) (xs : List A) → All P xs → All P (take n xs)
All-take P zero xs h = tt
All-take P (suc n) [] h = tt
All-take P (suc n) (x ∷ xs) (h, hs) = (h, All-take P n xs hs)

pub All-drop {ℓ κ} :
    {A : Type ℓ} (P : A → Type κ) (n : ℕ) (xs : List A) → All P xs → All P (drop n xs)
All-drop P zero xs h = h
All-drop P (suc n) [] h = tt
All-drop P (suc n) (x ∷ xs) (h, hs) = All-drop P n xs hs

pub take_all {ℓ} : {A : Type ℓ} (n : ℕ) (xs : List A) → length xs ≤ n → take n xs ≡ xs
take_all zero [] h = refl
take_all zero (x ∷ xs) h = absurd (omega arith)
take_all (suc n) [] h = refl
take_all (suc n) (x ∷ xs) h = ap (◌∷◌ x) (take_all n xs (omega arith))

pub offset-take-drop :
    (i : ℕ) (es : List Entry) → offset (take i es) + offset (drop i es) ≡ offset es
offset-take-drop i es =
    sym (offset-append (take i es) (drop i es)) ∙ ap offset (take-append-drop i es)

-- A whole node, built at once.
pub build-ok :
    (size btype n : ℕ) (es : List Entry)
    → size < 2 ^ 16
    → All Fits es
    → n ≡ length es
    → used es ≤ size
    → append_all size es (set_header btype n)
      ≡ ok (record { btype = btype; nkeys = n; entries = es })
unfolding offset
build-ok size btype n es small fits count room =
    let whole : n % 2 ^ 16 ≡ n = omega arith in
    append_all-ok size es (set_header btype n) small fits (omega arith)
    ∙ ap (λ k. ok (record { btype = btype; nkeys = k; entries = es })) whole

-- A list of entries with a piece of it replaced.
abbrev pub splice : List Entry → ℕ → List Entry → ℕ → List Entry
splice es i new j = take i es ++ (new ++ drop j es)

-- Two and three pieces that are appended one after the other are one list.
pub three_pieces :
    (size : ℕ) (xs ys : List Entry) (e : Entry) (n : BNode)
    → (append_all size xs n >>= λ a. node_append_kv size e a >>= λ b. append_all size ys b)
      ≡ append_all size (xs ++ e ∷ ys) n
unfolding append_all
three_pieces size xs ys e n = sym (append_all-append size xs (e ∷ ys) n)

module _ (size : ℕ) (old : BNode) (complete : IsComplete old) where
  pub leaf_insert-pieces :
      (idx : ℕ) (key val : Bytes)
      → leaf_insert size old idx key val
        ≡ append_all size
            (splice old.entries idx (record { ptr = 0; key = key; val = val } ∷ []) idx)
            (set_header bnode_leaf (old.nkeys + 1))
  unfolding leaf_insert node_append_range
  leaf_insert-pieces idx key val =
      rw
        (take_all (old.nkeys - idx) (drop idx old.entries)
          (omega (arith, length-drop idx old.entries, complete.counted)))
        (three_pieces size _ _ _ _)

  pub leaf_update-pieces :
      (idx : ℕ) (key val : Bytes)
      → leaf_update size old idx key val
        ≡ append_all size
            (splice old.entries idx (record { ptr = 0; key = key; val = val } ∷ []) (idx + 1))
            (set_header bnode_leaf old.nkeys)
  unfolding leaf_update node_append_range
  leaf_update-pieces idx key val =
      rw
        (take_all (old.nkeys - (idx + 1)) (drop (idx + 1) old.entries)
          (omega (arith, length-drop (idx + 1) old.entries, complete.counted)))
        (three_pieces size _ _ _ _)

  pub leaf_delete-pieces :
      (idx : ℕ)
      → leaf_delete size old idx
        ≡ append_all size
            (splice old.entries idx [] (idx + 1))
            (set_header bnode_leaf (old.nkeys - 1))
  unfolding leaf_delete node_append_range
  leaf_delete-pieces idx =
      rw
        (take_all (old.nkeys - (idx + 1)) (drop (idx + 1) old.entries)
          (omega (arith, length-drop (idx + 1) old.entries, complete.counted)))
        (sym (append_all-append size (take idx old.entries) (drop (idx + 1) old.entries) _))

pub length-splice :
    (es new : List Entry) (i j : ℕ)
    → i ≤ j
    → j ≤ length es
    → length (splice es i new j) + (j - i) ≡ length es + length new
length-splice es new i j le within = omega (
  arith,
  length-append (take i es) (new ++ drop j es),
  length-append new (drop j es),
  length-take i es,
  length-drop j es,
)

-- The bytes that the replaced piece took.
abbrev pub piece : List Entry → ℕ → ℕ → List Entry
piece es i j = take (j - i) (drop i es)

pub offset-splice :
    (es new : List Entry) (i j : ℕ)
    → i ≤ j
    → offset (splice es i new j) + offset (piece es i j) ≡ offset es + offset new
offset-splice es new i j le = omega (
  arith,
  offset-append (take i es) (new ++ drop j es),
  offset-append new (drop j es),
  offset-take-drop i es,
  offset-take-drop (j - i) (drop i es),
  ap offset (drop-drop es i (j - i) j (omega arith)),
)

pub All-splice :
    (es new : List Entry) (i j : ℕ) → All Fits es → All Fits new → All Fits (splice es i new j)
All-splice es new i j h k =
    All-append Fits (take i es) (new ++ drop j es) (All-take Fits i es h)
      (All-append Fits new (drop j es) k (All-drop Fits j es h))
