-- ===== src/Storage/Kv/Tx.antt =====
-- Reads and writes of a transaction: KVReader::get of src/storage/kv_reader.cpp, and KVTX::set, update and
-- del of src/storage/kv.cpp.
use sqldb.Base.{
  ℕ, ◌+◌, ◌<◌, ◌≤◌, ◌≡◌, ◌≢◌, refl, Bool, true, false, not, if◌then◌else◌, [], Option, none, some,
  Bytes, Result, ok, ◌>>=◌, Bool-cases, inl, inr,
}
use sqldb.Storage.SortedMap.{Pairs, find, put}
use sqldb.Storage.PageManager.{PageManager}
use sqldb.Storage.Tree
use sqldb.Storage.Tree.{check_limit, check_key_limit}
use sqldb.Storage.Tree.Delete
use sqldb.Storage.Tree.Get.{IsTree, get-find}
use sqldb.Storage.Tree.Versions.{rooted, insert-put, check_limit-key}

pub data UpdateMode : Type 0 where
  upsert update_only insert_only : UpdateMode

-- What update and del return, with `added` and `old` of the request, and the store behind the call. The
-- store of a transaction is the root of its tree with its pages.
pub record Reply (S : Type 0) : Type 0 where
  pub done : Bool
  pub added : Bool
  pub old : Bytes
  pub store : S

abbrev pub is_absent : Option Bytes → Bool
is_absent none = true
is_absent (some v) = false

abbrev pub or_empty : Option Bytes → Bytes
or_empty none = []
or_empty (some v) = v

-- Is the mode's requirement violated, for a key that is new or not?
unfoldable pub refuses : UpdateMode → Bool → Bool
refuses upsert added = false
refuses update_only added = added
refuses insert_only added = not added

-- Does the mode allow a write, beside what the map has under the key?
abbrev pub Allows : UpdateMode → Option Bytes → Type 0
Allows upsert found = Unit
Allows update_only found = found ≢ none
Allows insert_only found = found ≡ none

refuses-Allows :
    (mode : UpdateMode) (found : Option Bytes)
    → (refuses mode (is_absent found) ≡ false → Allows mode found)
      × (refuses mode (is_absent found) ≡ true → ¬ (Allows mode found))
unfolding refuses
refuses-Allows upsert found = (λ e. tt, λ e. cc)
refuses-Allows update_only none = (λ e. cc, λ e n. n refl)
refuses-Allows update_only (some v) = (λ e n. cc, λ e. cc)
refuses-Allows insert_only none = (λ e. refl, λ e. cc)
refuses-Allows insert_only (some v) = (λ e. cc, λ e n. cc)

module _ {S : Type 0} (pages : PageManager S) where
  unfoldable pub update : ℕ → UpdateMode → Bytes → Bytes → ℕ → S → Result (Reply (ℕ × S))
  update fuel mode key val root s = do
    old ← Tree.get pages fuel root key s
    let added = is_absent old
    let refused : Reply (ℕ × S) = record {
      done = false;
      added = added;
      old = or_empty old;
      store = (root, s);
    }
    let written = (do
      (next, t) ← Tree.insert pages fuel root key val s
      ok (record { done = true; added = added; old = or_empty old; store = (next, t) }))
    if refuses mode added then ok refused else written

  -- del, with the request.
  unfoldable pub del : ℕ → Bytes → ℕ → S → Result (Reply (ℕ × S))
  del fuel key root s = do
    old ← Tree.get pages fuel root key s
    removed ← if is_absent old then ok none else Delete.remove pages fuel root key s
    elim removed [
      | none ↦ ok (record { done = false; added = false; old = or_empty old; store = (root, s) })
      | some r ↦ ok (record { done = true; added = false; old = or_empty old; store = r })
    ]

  -- For a key and a value within the limits, and fuel beyond the height of the tree, update reports what the
  -- map has under the key. Where the mode allows a write beside that it puts the pair into the map, and
  -- else it leaves the tree.
  pub update-put :
      (h fuel root : ℕ) (s : S) (mode : UpdateMode) (key val : Bytes) (kvs : Pairs)
      → h < fuel
      → IsTree pages h root s kvs
      → check_limit key val ≡ ok tt
      → (r : Reply (ℕ × S)) × (update fuel mode key val root s ≡ ok r)
        × (r.added ≡ is_absent (find key kvs))
        × (r.old ≡ or_empty (find key kvs))
        × (Allows mode (find key kvs)
            → (r.done ≡ true)
              × (h' : ℕ) × IsTree pages h' r.store.0 r.store.1 (put key val (rooted kvs))
              × (h' ≤ h + 1))
        × (¬ (Allows mode (find key kvs)) → (r.done ≡ false) × (r.store ≡ (root, s)))
  unfolding update
  update-put h fuel root s mode key val kvs deep is_tree limit =
      let found =
        get-find pages h fuel root s key kvs deep is_tree (check_limit-key key val limit) in
      let (allowed, forbidden) = refuses-Allows mode (find key kvs) in
      elim (Bool-cases (refuses mode (is_absent (find key kvs)))) [
        | inl refused ↦ (
          _,
          rw (found, refused) refl,
          refl,
          refl,
          λ a. absurd (forbidden refused a),
          λ n. (refl, refl),
        )
        | inr accepted ↦
            let (h', next, t, done, grown, height, ext) =
              insert-put pages h fuel root s key val kvs deep is_tree limit in
            (
              _,
              rw (found, accepted, done) refl,
              refl,
              refl,
              λ a. (refl, h', grown, height),
              λ n. absurd (n (allowed accepted)),
            )
      ]
