-- ===== src/Storage/SortedMap/Erase.antt =====
-- Taking a pair out of a sorted map.
use sqldb.Base.{◌≡◌, ◌≢◌, refl, [], ◌∷◌, ◌++◌, none, Bytes, lex-eq, lex_swap, arith}
use sqldb.Storage.SortedMap.{
  Pairs, AllAbove, AllBelow, AllAbove-trans, Sorted, find, find_above, erase,
}

-- What is above the key stays, and what is below it is passed by.
pub erase_above : (key : Bytes) (ys : Pairs) → AllAbove key ys → erase key ys ≡ ys
unfolding erase
erase_above key [] h = refl
erase_above key (y ∷ ys) (h, hs) = ground (arith, h)

pub erase-append :
    (key : Bytes) (xs ys : Pairs) → AllBelow key xs → erase key (xs ++ ys) ≡ xs ++ erase key ys
unfolding erase
erase-append key [] ys h = refl
erase-append key (x ∷ xs) ys (h, hs) = ground (arith, erase-append key xs ys hs, lex_swap x.0 key)

pub erase-append_above :
    (key : Bytes) (xs ys : Pairs) → AllAbove key ys → erase key (xs ++ ys) ≡ erase key xs ++ ys
unfolding erase
erase-append_above key [] ys h = erase_above key ys h
erase-append_above key (x ∷ xs) ys h = ground (arith, erase-append_above key xs ys h)

erase-AllAbove : (a key : Bytes) (kvs : Pairs) → AllAbove a kvs → AllAbove a (erase key kvs)
unfolding erase
erase-AllAbove a key [] h = tt
erase-AllAbove a key (kv ∷ kvs) (h, hs) = ground (arith, erase-AllAbove a key kvs hs, h, hs)

-- erase keeps the order.
pub erase-Sorted : (key : Bytes) (kvs : Pairs) → Sorted kvs → Sorted (erase key kvs)
unfolding erase
erase-Sorted key [] h = tt
erase-Sorted key (kv ∷ kvs) (h, hs) =
    ground (arith, erase-Sorted key kvs hs, erase-AllAbove kv.0 key kvs h, h, hs)

-- The key is gone, and the other keys are found as before.
pub find-erase_self : (key : Bytes) (kvs : Pairs) → Sorted kvs → find key (erase key kvs) ≡ none
unfolding find erase
find-erase_self key [] h = refl
find-erase_self key (kv ∷ kvs) (h, hs) =
    ground (arith, find-erase_self key kvs hs, lex-eq key kv.0, find_above key kvs, h)

pub find-erase_ne :
    (other key : Bytes) (kvs : Pairs)
    → Sorted kvs
    → other ≢ key
    → find other (erase key kvs) ≡ find other kvs
unfolding find erase
find-erase_ne other key [] h ne = refl
find-erase_ne other key (kv ∷ kvs) (h, hs) ne = ground (
  arith,
  find-erase_ne other key kvs hs ne,
  lex-eq other key,
  lex-eq key kv.0,
  lex-eq other kv.0,
  find_above other kvs,
  AllAbove-trans other kv.0 kvs,
  h,
  ne,
)
