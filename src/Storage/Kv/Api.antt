-- ===== src/Storage/Kv/Api.antt =====
-- What the rows of a table ask of a transaction: the operations of KVReader and KVTX, and the sorted map that
-- they work on. A crowded state is one in which a removal may find no room in a node. The empty key that the tree keeps for itself is none of the map's.
pub mod Trees
use sqldb.Base.{
  ℕ, suc, length, ◌<◌, ◌>>=◌, if◌then◌else◌, ◌≡◌, ◌≢◌, Bool, true, false, Option, none, some, Bytes,
  Result, ok, stop, asserted, ◌⊎◌,
}
use sqldb.Storage.SortedMap.{Pair, Pairs, Sorted, find, put, erase}
use sqldb.Storage.Visits.{visits, matching, in_direction}
use sqldb.Storage.Cmp.{Cmp, is_forward, cmp_ge, cmp_le}
use sqldb.Storage.Tree.{check_limit, check_key_limit}
use sqldb.Storage.Kv.Tx.{UpdateMode, Reply, Allows, is_absent, or_empty}

pub record Api (S : Type 0) : Type 1 where
  pub Iter : Type 0
  pub get : Bytes → S → Result (Option Bytes)
  pub update : UpdateMode → Bytes → Bytes → S → Result (Reply S)
  pub remove : Bytes → S → Result (Bool × S)
  pub del : Bytes → S → Result (Reply S)
  pub seek : Bytes → Cmp → S → Result Iter
  pub valid : Iter → Bool
  pub deref : Iter → Result Pair
  pub next : S → Iter → Result Iter
  pub prev : S → Iter → Result Iter
  pub Stands : S → Pairs → Type 0
  pub Crowded : S → Type 0
  pub in_order : (s : S) (kvs : Pairs) → Stands s kvs → Sorted kvs
  pub get-find :
      (s : S) (key : Bytes) (kvs : Pairs)
      → Stands s kvs
      → check_key_limit key ≡ ok tt
      → get key s ≡ ok (find key kvs)
  pub update-put :
      (s : S) (mode : UpdateMode) (key val : Bytes) (kvs : Pairs)
      → Stands s kvs
      → check_limit key val ≡ ok tt
      → (r : Reply S) × (update mode key val s ≡ ok r)
        × (r.added ≡ is_absent (find key kvs))
        × (r.old ≡ or_empty (find key kvs))
        × (Allows mode (find key kvs) → (r.done ≡ true) × Stands r.store (put key val kvs))
        × (¬ (Allows mode (find key kvs)) → (r.done ≡ false) × (r.store ≡ s))
  pub seek-find :
      (s : S) (cmp : Cmp) (key v : Bytes) (kvs : Pairs)
      → Stands s kvs
      → check_key_limit key ≡ ok tt
      → find key kvs ≡ some v
      → (cmp ≡ cmp_ge) ⊎ (cmp ≡ cmp_le)
      → (it : Iter) × (seek key cmp s ≡ ok it) × (valid it ≡ true) × (deref it ≡ ok (key, v))
  pub seek-matching :
      (s : S) (cmp : Cmp) (key : Bytes) (kvs : Pairs) (steps : ℕ)
      → Stands s kvs
      → suc (length kvs) < steps
      → (seek key cmp s >>= λ it.
          visits
            (λ i. ok (valid i))
            deref
            (λ i. if is_forward cmp then next s i else prev s i)
            steps
            it)
        ≡ ok (in_direction cmp (matching cmp key kvs))
  pub remove-erase :
      (s : S) (key : Bytes) (kvs : Pairs)
      → Stands s kvs
      → check_key_limit key ≡ ok tt
      → ((Crowded s × (remove key s ≡ stop asserted))
          ⊎ ((remove key s ≡ ok (false, s)) × (find key kvs ≡ none)))
        ⊎ ((t : S) × (remove key s ≡ ok (true, t))
            × (find key kvs ≢ none)
            × Stands t (erase key kvs))
  pub del-erase :
      (s : S) (key : Bytes) (kvs : Pairs)
      → Stands s kvs
      → check_key_limit key ≡ ok tt
      → ((find key kvs ≡ none)
          × (r : Reply S) × (del key s ≡ ok r)
          × (r.done ≡ false)
          × (r.store ≡ s))
        ⊎ ((v : Bytes) × (find key kvs ≡ some v)
            × ((Crowded s × (del key s ≡ stop asserted))
                ⊎ ((r : Reply S) × (del key s ≡ ok r)
                    × (r.done ≡ true)
                    × (r.old ≡ v)
                    × Stands r.store (erase key kvs))))
