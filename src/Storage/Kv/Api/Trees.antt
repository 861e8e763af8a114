-- ===== src/Storage/Kv/Api/Trees.antt =====
-- KVReader and KVTX over the pages of a B+tree. A state has, beside the root and the pages, a bound on the
-- height of its tree, which a write may raise by one: the fuel of the calls.
use sqldb.Base.{
  zero, ℕ, suc, ◌<◌, ◌≡◌, ◌≢◌, refl, sym, ap, ◌∙◌, subst, Bool, true, false, [], ◌∷◌, Option, none,
  some, length, ltb, if◌then◌else◌, Bytes, lex, lex-eq, lex_refl, lex_swap, Ordering, Result, ok,
  stop, asserted, ◌>>=◌, ◌⊎◌, inl, inr, arith, Option-cases,
}
use sqldb.Storage.SortedMap.{Pairs, Sorted, find, put, floor, floor_here, AllAbove, erase}
use sqldb.Storage.Cmp.{Cmp, cmp_ge, cmp_gt, cmp_lt, cmp_le, cmp_ok}
use sqldb.Storage.Visits.{visits, matching, in_direction}
use sqldb.Storage.PageManager.{PageManager}
use sqldb.Storage.Tree
use sqldb.Storage.Tree.{check_limit, check_key_limit}
use sqldb.Storage.Tree.Delete
use sqldb.Storage.Tree.Delete.Correct.{Crowded, remove-erase}
use sqldb.Storage.Tree.Get.{IsTree, empty_tree, tree, get-find}
use sqldb.Storage.Tree.Versions.{rooted, check_limit-key, check_key_limit-nonempty, nonempty_above}
use sqldb.Storage.Iter
use sqldb.Storage.Iter.{BIter, stands_at}
use sqldb.Storage.Iter.Seek.{seek_le-floor}
use sqldb.Storage.Iter.Range.{seen, seek-matching}
use sqldb.Storage.Kv.Tx
use sqldb.Storage.Kv.Tx.{UpdateMode, Reply, Allows, is_absent, or_empty, update-put}
use sqldb.Storage.Kv.Api.{Api}

-- The pairs that a user has put into the tree, and the tree's own at their head.
abbrev pub users : Pairs → Pairs
users [] = []
users (kv ∷ kvs) = kvs

abbrev Headed : Pairs → Type 0
Headed [] = Unit
Headed (kv ∷ kvs) = (kv.0 ≡ []) × AllAbove [] kvs

behind_head : (key : Bytes) → check_key_limit key ≡ ok tt → lex key [] ≡ Ordering.gt
behind_head key limit =
    ground (arith, nonempty_above key (check_key_limit-nonempty key limit), lex_swap [] key)

find-users :
    (key : Bytes) (w : Pairs)
    → Headed w
    → lex key [] ≡ Ordering.gt
    → find key w ≡ find key (users w)
unfolding find
find-users key [] h gt = refl
find-users key (kv ∷ kvs) (h, above) gt = ground (arith, h, gt)

put-users :
    (key val : Bytes) (w : Pairs)
    → Headed w
    → lex key [] ≡ Ordering.gt
    → users (put key val (rooted w)) ≡ put key val (users w)
unfolding put
put-users key val [] h gt = ground (arith, gt)
put-users key val (kv ∷ kvs) (h, above) gt = ground (arith, h, gt)

erase-users :
    (key : Bytes) (w : Pairs)
    → Headed w
    → lex key [] ≡ Ordering.gt
    → users (erase key w) ≡ erase key (users w)
unfolding erase
erase-users key [] h gt = refl
erase-users key (kv ∷ kvs) (h, above) gt = ground (arith, h, gt)

floor-find :
    (key v : Bytes) (kvs : Pairs)
    → Sorted kvs
    → find key kvs ≡ some v
    → floor key kvs ≡ some (key, v)
unfolding find floor
floor-find key v [] h e = cc
floor-find key v (kv ∷ kvs) (h, hs) e = ground (
  arith,
  floor-find key v kvs hs,
  lex-eq key kv.0,
  lex_swap key kv.0,
  lex_refl key,
  floor_here key kv kvs,
)

-- A key has the relations that allow it to itself.
holds_at : (key : Bytes) (cmp : Cmp) → (cmp ≡ cmp_ge) ⊎ (cmp ≡ cmp_le) → cmp_ok key cmp key ≡ true
unfolding cmp_ok
holds_at key cmp (inl e) = rw (e, lex_refl key) refl
holds_at key cmp (inr e) = rw (e, lex_refl key) refl

module _ {S : Type 0} (pages : PageManager S) where
  IsTree-Headed : (h root : ℕ) (s : S) (w : Pairs) → IsTree pages h root s w → Headed w × Sorted w
  IsTree-Headed h root s w (empty_tree _ _) = (tt, tt)
  IsTree-Headed h root s w (tree _ _ _ n val kvs _ _ _ _ _ sorted _) = ((refl, sorted.0), sorted)

  IsTree-root :
      (h root : ℕ) (s : S) (key v : Bytes) (w : Pairs)
      → IsTree pages h root s w
      → find key w ≡ some v
      → 0 < root
  unfolding find
  IsTree-root h root s key v w (empty_tree _ _) e = cc
  IsTree-root h root s key v w (tree _ _ _ n val kvs nonzero _ _ _ _ _ _) e = nonzero

  seek-users :
      (h fuel root : ℕ) (s : S) (cmp : Cmp) (key : Bytes) (w : Pairs) (steps : ℕ)
      → h < fuel
      → IsTree pages h root s w
      → suc (length (users w)) < steps
      → (Iter.seek pages fuel root key cmp s >>= λ it. seen pages cmp steps s it)
        ≡ ok (in_direction cmp (matching cmp key (users w)))
  unfolding Iter.seek Iter.seek_le Iter.seek_loop stands_at Iter.valid Iter.next Iter.iter_next
      visits matching
  seek-users h zero root s cmp key w steps deep there more = absurd (omega arith)
  seek-users h (suc fuel) root s cmp key w zero deep there more = absurd (omega arith)
  seek-users h (suc fuel) root s cmp_ge key w (suc steps) deep (empty_tree _ _) more = refl
  seek-users h (suc fuel) root s cmp_gt key w (suc steps) deep (empty_tree _ _) more = refl
  seek-users h (suc fuel) root s cmp_lt key w (suc steps) deep (empty_tree _ _) more = refl
  seek-users h (suc fuel) root s cmp_le key w (suc steps) deep (empty_tree _ _) more = refl
  seek-users h (suc fuel) root s cmp key w (suc steps) deep
        (tree _ _ _ n val kvs nonzero alive stored complete small sorted holds) more =
      seek-matching pages h (suc fuel) root s cmp key val kvs (suc steps) deep
        (tree _ _ _ n val kvs nonzero alive stored complete small sorted holds) more

pub record TreeState (S : Type 0) : Type 0 where
  pub fuel : ℕ
  pub root : ℕ
  pub store : S

module _ {S : Type 0} (pages : PageManager S) where
  unfoldable pub get : Bytes → TreeState S → Result (Option Bytes)
  get key o = Tree.get pages o.fuel o.root key o.store

  abbrev replied : ℕ → Reply (ℕ × S) → Reply (TreeState S)
  replied fuel r = record {
    done = r.done;
    added = r.added;
    old = r.old;
    store = record { fuel = fuel; root = r.store.0; store = r.store.1 };
  }

  unfoldable pub update : UpdateMode → Bytes → Bytes → TreeState S → Result (Reply (TreeState S))
  update mode key val o = do
    r ← Tx.update pages o.fuel mode key val o.root o.store
    ok (replied (if r.done then suc o.fuel else o.fuel) r)

  -- del without a request.
  unfoldable pub remove : Bytes → TreeState S → Result (Bool × TreeState S)
  remove key o = do
    removed ← Delete.remove pages o.fuel o.root key o.store
    ok (elim removed [
      | none ↦ (false, o)
      | some r ↦ (true, record { fuel = o.fuel; root = r.0; store = r.1 })
    ])

  unfoldable pub del : Bytes → TreeState S → Result (Reply (TreeState S))
  del key o = Tx.del pages o.fuel key o.root o.store >>= λ r. ok (replied o.fuel r)

  unfoldable pub seek : Bytes → Cmp → TreeState S → Result BIter
  seek key cmp o = Iter.seek pages o.fuel o.root key cmp o.store

  -- The pages hold a tree of the users' pairs, of a height that the fuel covers.
  abbrev pub Stands : TreeState S → Pairs → Type 0
  Stands o kvs =
      (h : ℕ) × (w : Pairs) × (h < o.fuel) × IsTree pages h o.root o.store w × (kvs ≡ users w)

  pub Stands-Sorted : (o : TreeState S) (kvs : Pairs) → Stands o kvs → Sorted kvs
  Stands-Sorted o kvs (h, w, deep, is_tree, e) =
      subst Sorted (sym e) (tail w (IsTree-Headed pages h o.root o.store w is_tree).1)
    where
      tail : (w : Pairs) → Sorted w → Sorted (users w)
      tail [] sorted = tt
      tail (kv ∷ kvs) sorted = sorted.1

  pub Stands-get :
      (o : TreeState S) (key : Bytes) (kvs : Pairs)
      → Stands o kvs
      → check_key_limit key ≡ ok tt
      → get key o ≡ ok (find key kvs)
  unfolding get
  Stands-get o key kvs (h, w, deep, is_tree, e) limit =
      get-find pages h o.fuel o.root o.store key w deep is_tree limit
      ∙ ap ok (
          find-users key w (IsTree-Headed pages h o.root o.store w is_tree).0
            (behind_head key limit)
          ∙ ap (find key) (sym e))

  pub Stands-update :
      (o : TreeState S) (mode : UpdateMode) (key val : Bytes) (kvs : Pairs)
      → Stands o kvs
      → check_limit key val ≡ ok tt
      → (r : Reply (TreeState S)) × (update mode key val o ≡ ok r)
        × (r.added ≡ is_absent (find key kvs))
        × (r.old ≡ or_empty (find key kvs))
        × (Allows mode (find key kvs) → (r.done ≡ true) × Stands r.store (put key val kvs))
        × (¬ (Allows mode (find key kvs)) → (r.done ≡ false) × (r.store ≡ o))
  unfolding update
  Stands-update o mode key val kvs (h, w, deep, is_tree, e) limit =
      let gt = behind_head key (check_limit-key key val limit) in
      let headed = (IsTree-Headed pages h o.root o.store w is_tree).0 in
      let same : find key w ≡ find key kvs = find-users key w headed gt ∙ ap (find key) (sym e) in
      let (r, call, added, old, allowed, refused) =
        update-put pages h o.fuel o.root o.store mode key val w deep is_tree limit in
      (
        replied (if r.done then suc o.fuel else o.fuel) r,
        rw call refl,
        added ∙ ap is_absent same,
        old ∙ ap or_empty same,
        λ a.
            let (done, h', grown, height) = allowed (subst (Allows mode) (sym same) a) in
            (
              done,
              (
                h',
                put key val (rooted w),
                ground (arith, done, height, deep),
                grown,
                ap (put key val) e ∙ sym (put-users key val w headed gt),
              ),
            ),
        λ n.
            let (done, kept) = refused (λ a. n (subst (Allows mode) same a)) in
            (done, rw (done, kept) refl),
      )

  -- BTree::remove on such a state.
  Stands-removed :
      (o : TreeState S) (key : Bytes) (kvs : Pairs)
      → Stands o kvs
      → check_key_limit key ≡ ok tt
      → ((Crowded pages o.store × (Delete.remove pages o.fuel o.root key o.store ≡ stop asserted))
          ⊎ ((Delete.remove pages o.fuel o.root key o.store ≡ ok none) × (find key kvs ≡ none)))
        ⊎ ((r : ℕ × S) × (Delete.remove pages o.fuel o.root key o.store ≡ ok (some r))
            × (find key kvs ≢ none)
            × Stands (record { fuel = o.fuel; root = r.0; store = r.1 }) (erase key kvs))
  Stands-removed o key kvs (h, w, deep, is_tree, e) limit =
      let gt = behind_head key limit in
      let headed = (IsTree-Headed pages h o.root o.store w is_tree).0 in
      let same : find key w ≡ find key kvs = find-users key w headed gt ∙ ap (find key) (sym e) in
      elim (remove-erase pages h o.fuel o.root o.store key w deep is_tree limit) [
        | inl (inl crowded) ↦ inl (inl crowded)
        | inl (inr (call, gone)) ↦ inl (inr (call, sym same ∙ gone))
        | inr (h', root', t, call, there, left, height, ext) ↦ inr (
          (root', t),
          call,
          λ gone. there (same ∙ gone),
          (
            h',
            erase key w,
            omega arith,
            left,
            ap (erase key) e ∙ sym (erase-users key w headed gt),
          ),
        )
      ]

  pub Stands-remove :
      (o : TreeState S) (key : Bytes) (kvs : Pairs)
      → Stands o kvs
      → check_key_limit key ≡ ok tt
      → ((Crowded pages o.store × (remove key o ≡ stop asserted))
          ⊎ ((remove key o ≡ ok (false, o)) × (find key kvs ≡ none)))
        ⊎ ((t : TreeState S) × (remove key o ≡ ok (true, t))
            × (find key kvs ≢ none)
            × Stands t (erase key kvs))
  unfolding remove
  Stands-remove o key kvs stands limit = elim (Stands-removed o key kvs stands limit) [
    | inl (inl (crowded, call)) ↦ inl (inl (crowded, rw call refl))
    | inl (inr (call, gone)) ↦ inl (inr (rw call refl, gone))
    | inr (r, call, there, left) ↦
        inr (record { fuel = o.fuel; root = r.0; store = r.1 }, rw call refl, there, left)
  ]

  pub Stands-del :
      (o : TreeState S) (key : Bytes) (kvs : Pairs)
      → Stands o kvs
      → check_key_limit key ≡ ok tt
      → ((find key kvs ≡ none)
          × (r : Reply (TreeState S)) × (del key o ≡ ok r)
          × (r.done ≡ false)
          × (r.store ≡ o))
        ⊎ ((v : Bytes) × (find key kvs ≡ some v)
            × ((Crowded pages o.store × (del key o ≡ stop asserted))
                ⊎ ((r : Reply (TreeState S)) × (del key o ≡ ok r)
                    × (r.done ≡ true)
                    × (r.old ≡ v)
                    × Stands r.store (erase key kvs))))
  unfolding del Tx.del get
  Stands-del o key kvs stands limit =
      let got = Stands-get o key kvs stands limit in
      elim (Option-cases (find key kvs)) [
        | inl gone ↦ inl (
          gone,
          record { done = false; added = false; old = []; store = o },
          rw (got ∙ ap ok gone) refl,
          refl,
          refl,
        )
        | inr (v, there) ↦ elim (Stands-removed o key kvs stands limit) [
          | inl (inl (crowded, call)) ↦
              inr (v, there, inl (crowded, rw (got ∙ ap ok there, call) refl))
          | inl (inr (call, gone)) ↦ absurd (ground (arith, gone, there))
          | inr (r, call, other, left) ↦ inr (
            v,
            there,
            inr (
              record {
                done = true;
                added = false;
                old = v;
                store = record { fuel = o.fuel; root = r.0; store = r.1 };
              },
              rw (got ∙ ap ok there, call) refl,
              refl,
              refl,
              left,
            ),
          )
        ]
      ]

  pub Stands-seek :
      (o : TreeState S) (cmp : Cmp) (key v : Bytes) (kvs : Pairs)
      → Stands o kvs
      → check_key_limit key ≡ ok tt
      → find key kvs ≡ some v
      → (cmp ≡ cmp_ge) ⊎ (cmp ≡ cmp_le)
      → (it : BIter) × (seek key cmp o ≡ ok it)
        × (Iter.valid it ≡ true)
        × (Iter.deref it ≡ ok (key, v))
  unfolding seek Iter.seek stands_at
  Stands-seek o cmp key v kvs (h, w, deep, is_tree, e) limit there inclusive =
      let (headed, sorted) = IsTree-Headed pages h o.root o.store w is_tree in
      let found = find-users key w headed (behind_head key limit) ∙ ap (find key) (sym e) ∙ there in
      let (it, kv, call, low, good, read) =
        seek_le-floor pages h o.fuel o.root o.store key w deep
          (IsTree-root pages h o.root o.store key v w is_tree found) is_tree in
      let same : kv ≡ (key, v) = ground (arith, low, floor-find key v w sorted found) in
      let nonempty = check_key_limit-nonempty key limit in
      let some_bytes : ltb 0 (length kv.0) ≡ true = ground (arith, same, nonempty) in
      let lit : Iter.valid it ≡ true = good ∙ some_bytes in
      let at : Iter.deref it ≡ ok (key, v) = read ∙ rw (some_bytes, same) refl in
      let right : cmp_ok key cmp key ≡ true = holds_at key cmp inclusive in
      (it, rw (call, lit, at, right) refl, lit, at)

  pub Stands-seek_all :
      (o : TreeState S) (cmp : Cmp) (key : Bytes) (kvs : Pairs) (steps : ℕ)
      → Stands o kvs
      → suc (length kvs) < steps
      → (seek key cmp o >>= λ it. seen pages cmp steps o.store it)
        ≡ ok (in_direction cmp (matching cmp key kvs))
  unfolding seek
  Stands-seek_all o cmp key kvs steps (h, w, deep, is_tree, e) more =
      seek-users pages h o.fuel o.root o.store cmp key w steps deep is_tree
        (subst (λ l. suc (length l) < steps) e more)
      ∙ ap (λ l. ok (in_direction cmp (matching cmp key l))) (sym e)

  abbrev pub trees : Api (TreeState S)
  trees = record {
    Iter = BIter;
    get = get;
    update = update;
    remove = remove;
    del = del;
    seek = seek;
    valid = Iter.valid;
    deref = Iter.deref;
    next = λ o it. Iter.next pages o.store it;
    prev = λ o it. Iter.prev pages o.store it;
    Stands = Stands;
    Crowded = λ o. Crowded pages o.store;
    in_order = Stands-Sorted;
    get-find = λ o key kvs. Stands-get o key kvs;
    update-put = Stands-update;
    seek-find = Stands-seek;
    seek-matching = Stands-seek_all;
    remove-erase = Stands-remove;
    del-erase = Stands-del;
  }
