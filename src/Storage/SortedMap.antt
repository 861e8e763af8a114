-- ===== src/Storage/SortedMap.antt =====
-- What the B+tree promises: pairs of keys and values in the order of their keys.
pub mod Erase
use sqldb.Base.{
  ◌≡◌, ◌≢◌, refl, subst, Ordering, List, [], ◌∷◌, ◌++◌, Option, none, some, Bytes, lex, lex_refl,
  lex-eq, lex_swap, lex_trans, arith, inl, inr, ◌⊎◌,
}

abbrev pub Pair : Type 0
Pair = Bytes × Bytes

abbrev pub Pairs : Type 0
Pairs = List Pair

abbrev pub Less : Bytes → Bytes → Type 0
Less a b = lex a b ≡ Ordering.lt

-- The value under a key.
unfoldable pub find : Bytes → Pairs → Option Bytes
find key [] = none
find key (kv ∷ kvs) = elim (lex key kv.0) [
  | Ordering.lt ↦ none
  | Ordering.eq ↦ some kv.1
  | Ordering.gt ↦ find key kvs
]

-- A pair with its key, in the place of the one that had it, if any.
unfoldable pub put : Bytes → Bytes → Pairs → Pairs
put key val [] = (key, val) ∷ []
put key val (kv ∷ kvs) = elim (lex key kv.0) [
  | Ordering.lt ↦ (key, val) ∷ kv ∷ kvs
  | Ordering.eq ↦ (key, val) ∷ kvs
  | Ordering.gt ↦ kv ∷ put key val kvs
]

-- The pairs without the one that has the key.
unfoldable pub erase : Bytes → Pairs → Pairs
erase key [] = []
erase key (kv ∷ kvs) = elim (lex key kv.0) [
  | Ordering.lt ↦ kv ∷ kvs
  | Ordering.eq ↦ kvs
  | Ordering.gt ↦ kv ∷ erase key kvs
]

-- Every key is above `a`.
abbrev pub AllAbove : Bytes → Pairs → Type 0
AllAbove a [] = Unit
AllAbove a (kv ∷ kvs) = Less a kv.0 × AllAbove a kvs

abbrev pub AllBelow : Bytes → Pairs → Type 0
AllBelow a [] = Unit
AllBelow a (kv ∷ kvs) = Less kv.0 a × AllBelow a kvs

abbrev pub Sorted : Pairs → Type 0
Sorted [] = Unit
Sorted (kv ∷ kvs) = AllAbove kv.0 kvs × Sorted kvs

pub AllAbove-trans : (a b : Bytes) (kvs : Pairs) → Less a b → AllAbove b kvs → AllAbove a kvs
AllAbove-trans a b [] h k = tt
AllAbove-trans a b (kv ∷ kvs) h (k, ks) = (lex_trans a b kv.0 h k, AllAbove-trans a b kvs h ks)

pub AllBelow-trans : (a b : Bytes) (kvs : Pairs) → AllBelow a kvs → Less a b → AllBelow b kvs
AllBelow-trans a b [] h k = tt
AllBelow-trans a b (kv ∷ kvs) (h, hs) k = (lex_trans kv.0 a b h k, AllBelow-trans a b kvs hs k)

pub Ordering-cases : (o : Ordering) → ((o ≡ Ordering.lt) ⊎ (o ≡ Ordering.eq)) ⊎ (o ≡ Ordering.gt)
Ordering-cases Ordering.lt = inl (inl refl)
Ordering-cases Ordering.eq = inl (inr refl)
Ordering-cases Ordering.gt = inr refl

pub AllBelow-le :
    (a b : Bytes) (kvs : Pairs) → AllBelow a kvs → lex a b ≢ Ordering.gt → AllBelow b kvs
AllBelow-le a b kvs h le = elim (Ordering-cases (lex a b)) [
  | inl (inl less) ↦ AllBelow-trans a b kvs h less
  | inl (inr same) ↦ subst (λ c. AllBelow c kvs) (lex-eq a b same) h
  | inr greater ↦ absurd (le greater)
]

pub AllAbove-append :
    (a : Bytes) (xs ys : Pairs) → AllAbove a (xs ++ ys) → AllAbove a xs × AllAbove a ys
AllAbove-append a [] ys h = (tt, h)
AllAbove-append a (x ∷ xs) ys (h, hs) = let (l, r) = AllAbove-append a xs ys hs in ((h, l), r)

-- Of two lists of pairs in order, each is in order.
pub Sorted-append : (xs ys : Pairs) → Sorted (xs ++ ys) → Sorted xs × Sorted ys
Sorted-append [] ys h = (tt, h)
Sorted-append (x ∷ xs) ys (h, hs) =
    let (l, r) = Sorted-append xs ys hs in (((AllAbove-append x.0 xs ys h).0, l), r)

-- What stands behind another list is above each of its keys.
pub Sorted-below : (xs : Pairs) (y : Pair) (ys : Pairs) → Sorted (xs ++ y ∷ ys) → AllBelow y.0 xs
Sorted-below [] y ys h = tt
Sorted-below (x ∷ xs) y ys (h, hs) =
    ((AllAbove-append x.0 xs (y ∷ ys) h).1.0, Sorted-below xs y ys hs)

put-AllAbove :
    (a key val : Bytes) (kvs : Pairs) → Less a key → AllAbove a kvs → AllAbove a (put key val kvs)
unfolding put
put-AllAbove a key val [] h k = (h, tt)
put-AllAbove a key val (kv ∷ kvs) h (k, ks) = ground (arith, put-AllAbove a key val kvs h ks)

-- put keeps the order.
pub put-Sorted : (key val : Bytes) (kvs : Pairs) → Sorted kvs → Sorted (put key val kvs)
unfolding put
put-Sorted key val [] h = (tt, tt)
put-Sorted key val (kv ∷ kvs) (h, hs) = ground (
  arith,
  put-Sorted key val kvs hs,
  put-AllAbove kv.0 key val kvs,
  AllAbove-trans key kv.0 kvs,
  h,
  lex_swap key kv.0,
  lex-eq key kv.0,
)

-- The value put is the one found, and the others are found as before.
pub find-put_self : (key val : Bytes) (kvs : Pairs) → find key (put key val kvs) ≡ some val
unfolding find put
find-put_self key val [] = ground (arith, lex_refl key)
find-put_self key val (kv ∷ kvs) = ground (arith, find-put_self key val kvs, lex_refl key)

pub find-put_ne :
    (other key val : Bytes) (kvs : Pairs)
    → other ≢ key
    → find other (put key val kvs) ≡ find other kvs
unfolding find put
find-put_ne other key val [] ne = ground (arith, lex-eq other key)
find-put_ne other key val (kv ∷ kvs) ne = ground (
  arith,
  find-put_ne other key val kvs ne,
  lex-eq other key,
  lex-eq key kv.0,
  lex_trans other key kv.0,
  lex_swap other key,
  ne,
)

-- Both operations pass by what is below the key, and stop before what is above it.
pub put-append :
    (key val : Bytes) (xs ys : Pairs)
    → AllBelow key xs
    → put key val (xs ++ ys) ≡ xs ++ put key val ys
unfolding put
put-append key val [] ys h = refl
put-append key val (x ∷ xs) ys (h, hs) =
    ground (arith, put-append key val xs ys hs, lex_swap x.0 key)

pub put_above : (key val : Bytes) (ys : Pairs) → AllAbove key ys → put key val ys ≡ (key, val) ∷ ys
unfolding put
put_above key val [] h = refl
put_above key val (y ∷ ys) (h, hs) = ground (arith, h)

pub put-append_above :
    (key val : Bytes) (x : Pair) (xs ys : Pairs)
    → AllAbove key ys
    → put key val (x ∷ xs ++ ys) ≡ put key val (x ∷ xs) ++ ys
unfolding put
put-append_above key val x [] ys h = ground (arith, put_above key val ys h)
put-append_above key val x (y ∷ xs) ys h = ground (arith, put-append_above key val y xs ys h)

pub find-append :
    (key : Bytes) (xs ys : Pairs) → AllBelow key xs → find key (xs ++ ys) ≡ find key ys
unfolding find
find-append key [] ys h = refl
find-append key (x ∷ xs) ys (h, hs) = ground (arith, find-append key xs ys hs, lex_swap x.0 key)

pub find_above : (key : Bytes) (ys : Pairs) → AllAbove key ys → find key ys ≡ none
unfolding find
find_above key [] h = refl
find_above key (y ∷ ys) (h, hs) = ground (arith, h)

pub find-append_above :
    (key : Bytes) (xs ys : Pairs) → AllAbove key ys → find key (xs ++ ys) ≡ find key xs
unfolding find
find-append_above key [] ys h = find_above key ys h
find-append_above key (x ∷ xs) ys h = ground (arith, find-append_above key xs ys h)

-- The last pair whose key is not above the given one.
abbrev or_pair : Option Pair → Pair → Pair
or_pair none kv = kv
or_pair (some later) kv = later

unfoldable pub floor : Bytes → Pairs → Option Pair
floor key [] = none
floor key (kv ∷ kvs) =
    let rest = floor key kvs in
    elim (lex kv.0 key) [ Ordering.gt ↦ none | _ ↦ some (or_pair rest kv) ]

floor_above : (key : Bytes) (kvs : Pairs) → AllAbove key kvs → floor key kvs ≡ none
unfolding floor
floor_above key [] h = refl
floor_above key (kv ∷ kvs) (h, hs) = ground (arith, h, lex_swap key kv.0)

pub floor-append_above :
    (key : Bytes) (xs ys : Pairs) → AllAbove key ys → floor key (xs ++ ys) ≡ floor key xs
unfolding floor
floor-append_above key [] ys h = floor_above key ys h
floor-append_above key (x ∷ xs) ys h = ground (arith, floor-append_above key xs ys h)

pub floor_here :
    (key : Bytes) (kv : Pair) (kvs : Pairs)
    → lex kv.0 key ≢ Ordering.gt
    → AllAbove key kvs
    → floor key (kv ∷ kvs) ≡ some kv
unfolding floor
floor_here key kv kvs le h = ground (arith, le, floor_above key kvs h)

pub floor-append :
    (key : Bytes) (xs : Pairs) (kv : Pair) (ys : Pairs)
    → AllBelow key xs
    → lex kv.0 key ≢ Ordering.gt
    → floor key (xs ++ kv ∷ ys) ≡ floor key (kv ∷ ys)
unfolding floor
floor-append key [] kv ys h le = refl
floor-append key (x ∷ xs) kv ys (h, hs) le = ground (arith, h, le, floor-append key xs kv ys hs le)
