-- ===== src/Access/Scan/Between.antt =====
-- What db_scan and the loop of its caller visit: the pairs between the two bounds of the scan.
use sqldb.Base.{
  ℕ, zero, suc, ◌<◌, ◌≡◌, ◌≢◌, refl, sym, ap, ◌∙◌, subst, true, false, [], ◌∷◌, ◌++◌, reverse,
  reverse-cons, length, if◌then◌else◌, Bytes, lex, lex_swap, lex_trans, lex-eq, Ordering, Result,
  ok, ◌>>=◌, >>=-eq-ok, ok-injective, Bool-cases, inl, inr, arith,
}
use sqldb.Catalog.Record.{Record}
use sqldb.Catalog.TableDef.{TableDef}
use sqldb.Storage.Cmp.{Cmp, cmp_ge, cmp_gt, cmp_lt, cmp_le, cmp_ok, is_forward}
use sqldb.Storage.SortedMap.{Pair, Pairs, Sorted, Less, AllAbove, Ordering-cases}
use sqldb.Storage.Visits.{visits, visits-round, matching, in_direction}
use sqldb.Storage.Kv.Api.{Api}
use sqldb.Access.Table.{ScanPlan, plan_scan, opposite}
use sqldb.Access.Table.Choice.{plan_scan-IsPlan}
use sqldb.Access.Scan.{Scanner, scan_valid, scan_next, db_scan}

-- The pairs up to the first whose key has not the relation to the bound.
unfoldable while_ok : Cmp → Bytes → Pairs → Pairs
while_ok cmp key [] = []
while_ok cmp key (kv ∷ kvs) =
    let rest = while_ok cmp key kvs in if cmp_ok kv.0 cmp key then kv ∷ rest else []

below_bound : (a b key : Bytes) → Less a b → lex b key ≢ Ordering.gt → Less a key
below_bound a b key less le = elim (Ordering-cases (lex b key)) [
  | inl (inl under) ↦ lex_trans a b key less under
  | inl (inr same) ↦ subst (Less a) (lex-eq b key same) less
  | inr over ↦ absurd (le over)
]

above_bound : (a b key : Bytes) → Less a b → lex key a ≢ Ordering.gt → Less key b
above_bound a b key less le = elim (Ordering-cases (lex key a)) [
  | inl (inl under) ↦ lex_trans key a b under less
  | inl (inr same) ↦ subst (λ k. Less k b) (sym (lex-eq key a same)) less
  | inr over ↦ absurd (le over)
]

-- A smaller key than one below a bound is below it, and a greater one than one above a bound is above it.
down_closed :
    (cmp : Cmp) (key a b : Bytes)
    → is_forward cmp ≡ false
    → Less a b
    → cmp_ok b cmp key ≡ true
    → cmp_ok a cmp key ≡ true
unfolding cmp_ok
down_closed cmp_ge key a b back less h = cc
down_closed cmp_gt key a b back less h = cc
down_closed cmp_lt key a b back less h =
    rw (below_bound a b key less (λ e. ground (arith, h, e))) refl
down_closed cmp_le key a b back less h =
    rw (below_bound a b key less (λ e. ground (arith, h, e))) refl

up_closed :
    (cmp : Cmp) (key a b : Bytes)
    → is_forward cmp ≡ true
    → Less a b
    → cmp_ok a cmp key ≡ true
    → cmp_ok b cmp key ≡ true
unfolding cmp_ok
up_closed cmp_ge key a b fwd less h =
    rw (lex_swap key b, above_bound a b key less (λ e. ground (arith, h, e, lex_swap key a))) refl
up_closed cmp_gt key a b fwd less h =
    rw (lex_swap key b, above_bound a b key less (λ e. ground (arith, h, e, lex_swap key a))) refl
up_closed cmp_lt key a b fwd less h = cc
up_closed cmp_le key a b fwd less h = cc

matching_beyond :
    (cmp : Cmp) (key : Bytes) (kv : Pair) (kvs : Pairs)
    → is_forward cmp ≡ false
    → AllAbove kv.0 kvs
    → cmp_ok kv.0 cmp key ≡ false
    → matching cmp key kvs ≡ []
unfolding matching
matching_beyond cmp key kv [] back above out = refl
matching_beyond cmp key kv (m ∷ kvs) back (h, hs) out = elim (Bool-cases (cmp_ok m.0 cmp key)) [
  | inl e ↦ absurd (ground (arith, out, down_closed cmp key kv.0 m.0 back h e))
  | inr e ↦ rw e (matching_beyond cmp key kv kvs back hs out)
]

matching_above :
    (cmp : Cmp) (key : Bytes) (kv : Pair) (kvs : Pairs)
    → is_forward cmp ≡ true
    → AllAbove kv.0 kvs
    → cmp_ok kv.0 cmp key ≡ true
    → matching cmp key kvs ≡ kvs
unfolding matching
matching_above cmp key kv [] fwd above good = refl
matching_above cmp key kv (m ∷ kvs) fwd (h, hs) good =
    rw (up_closed cmp key kv.0 m.0 fwd h good)
      (ap (λ l. m ∷ l) (matching_above cmp key kv kvs fwd hs good))

while_ok-ahead :
    (cmp : Cmp) (key : Bytes) (kvs : Pairs)
    → is_forward cmp ≡ false
    → Sorted kvs
    → while_ok cmp key kvs ≡ matching cmp key kvs
unfolding while_ok matching
while_ok-ahead cmp key [] back sorted = refl
while_ok-ahead cmp key (kv ∷ kvs) back (h, hs) = elim (Bool-cases (cmp_ok kv.0 cmp key)) [
  | inl e ↦ rw e (ap (λ l. kv ∷ l) (while_ok-ahead cmp key kvs back hs))
  | inr e ↦ rw e (sym (matching_beyond cmp key kv kvs back h e))
]

while_ok-append :
    (cmp : Cmp) (key : Bytes) (xs ys : Pairs)
    → while_ok cmp key xs ≡ xs
    → while_ok cmp key (xs ++ ys) ≡ xs ++ while_ok cmp key ys
unfolding while_ok
while_ok-append cmp key [] ys all = refl
while_ok-append cmp key (x ∷ xs) ys all = elim (Bool-cases (cmp_ok x.0 cmp key)) [
  | inl e ↦
      let rest : while_ok cmp key xs ≡ xs = ground (arith, all, e) in
      rw e (ap (λ l. x ∷ l) (while_ok-append cmp key xs ys rest))
  | inr e ↦ absurd (ground (arith, all, e))
]

while_ok_last :
    (cmp : Cmp) (key : Bytes) (xs : Pairs) (x : Pair)
    → cmp_ok x.0 cmp key ≡ false
    → while_ok cmp key (xs ++ x ∷ []) ≡ while_ok cmp key xs
unfolding while_ok
while_ok_last cmp key [] x out = rw out refl
while_ok_last cmp key (y ∷ xs) x out =
    ap (λ l. if cmp_ok y.0 cmp key then y ∷ l else []) (while_ok_last cmp key xs x out)

while_ok-back :
    (cmp : Cmp) (key : Bytes) (kvs : Pairs)
    → is_forward cmp ≡ true
    → Sorted kvs
    → while_ok cmp key (reverse kvs) ≡ reverse (matching cmp key kvs)
unfolding while_ok matching
while_ok-back cmp key [] fwd sorted = refl
while_ok-back cmp key (kv ∷ kvs) fwd (h, hs) =
    let rest = while_ok-back cmp key kvs fwd hs in
    elim (Bool-cases (cmp_ok kv.0 cmp key)) [
      | inl e ↦
          let all = matching_above cmp key kv kvs fwd h e in
          ap (while_ok cmp key) (reverse-cons kv kvs)
          ∙ while_ok-append cmp key (reverse kvs) (kv ∷ []) (rest ∙ ap reverse all)
          ∙ rw (e, all) (sym (reverse-cons kv kvs))
      | inr e ↦
          ap (while_ok cmp key) (reverse-cons kv kvs)
          ∙ while_ok_last cmp key (reverse kvs) kv e
          ∙ rest
          ∙ rw e refl
    ]

matching-Sorted :
    (cmp : Cmp) (key : Bytes) (kvs : Pairs) → Sorted kvs → Sorted (matching cmp key kvs)
unfolding matching
matching-Sorted cmp key [] sorted = tt
matching-Sorted cmp key (kv ∷ kvs) (h, hs) = elim (Bool-cases (cmp_ok kv.0 cmp key)) [
  | inl e ↦ rw e (kept cmp key kv.0 kvs h, matching-Sorted cmp key kvs hs)
  | inr e ↦ rw e (matching-Sorted cmp key kvs hs)
]
  where
    kept :
        (cmp : Cmp) (key a : Bytes) (kvs : Pairs)
        → AllAbove a kvs
        → AllAbove a (matching cmp key kvs)
    kept cmp key a [] above = tt
    kept cmp key a (m ∷ kvs) (h, hs) = elim (Bool-cases (cmp_ok m.0 cmp key)) [
      | inl e ↦ rw e (h, kept cmp key a kvs hs)
      | inr e ↦ rw e (kept cmp key a kvs hs)
    ]

module _ {S : Type 0} (api : Api S) where
  -- The loop `for (; sc.valid(); sc.next())`, by the pairs that it stops at.
  abbrev pub scanned : ℕ → S → Scanner api.Iter → Result Pairs
  scanned steps s = visits (scan_valid api) (λ sc. api.deref sc.iter) (scan_next api s) steps

  scanned-while_ok :
      (steps : ℕ) (s : S) (sc : Scanner api.Iter) (kvs : Pairs)
      → visits
          (λ i. ok (api.valid i))
          api.deref
          (λ i. if is_forward sc.cmp1 then api.next s i else api.prev s i)
          steps
          sc.iter
        ≡ ok kvs
      → scanned steps s sc ≡ ok (while_ok sc.cmp2 sc.plan.key_end kvs)
  unfolding visits scan_valid scan_next while_ok
  scanned-while_ok zero s sc kvs h = cc
  scanned-while_ok (suc steps) s sc kvs h = elim (Bool-cases (api.valid sc.iter)) [
    | inl good ↦
        let (kv, on, rest, read, moved, later, whole) =
          visits-round (λ i. ok (api.valid i)) api.deref
            (λ i. if is_forward sc.cmp1 then api.next s i else api.prev s i) steps sc.iter kvs h
            (ap ok good) in
        elim (Bool-cases (cmp_ok kv.0 sc.cmp2 sc.plan.key_end)) [
          | inl inside ↦
              let goes = scanned-while_ok steps s (record sc { iter = on }) rest later in
              rw (good, read, inside, moved, goes)
                (ap ok (sym (ap (while_ok sc.cmp2 sc.plan.key_end) whole ∙ rw inside refl)))
          | inr out ↦
              rw (good, read, out)
                (ap ok (sym (ap (while_ok sc.cmp2 sc.plan.key_end) whole ∙ rw out refl)))
        ]
    | inr bad ↦
        let nothing : [] ≡ kvs = ok-injective (rw bad at h) in
        rw bad (ap (λ l. ok (while_ok sc.cmp2 sc.plan.key_end l)) nothing)
  ]

  while_ok-in_direction :
      (cmp1 cmp2 : Cmp) (key : Bytes) (kvs : Pairs)
      → opposite cmp1 cmp2 ≡ true
      → Sorted kvs
      → while_ok cmp2 key (in_direction cmp1 kvs) ≡ in_direction cmp1 (matching cmp2 key kvs)
  while_ok-in_direction cmp1 cmp2 key kvs turned sorted = elim (Bool-cases (is_forward cmp1)) [
    | inl e ↦ rw e (while_ok-ahead cmp2 key kvs (ground (arith, turned, e)) sorted)
    | inr e ↦ rw e (while_ok-back cmp2 key kvs (ground (arith, turned, e)) sorted)
  ]

  -- Where db_scan gets as far as the seek, the loop of its caller visits the pairs whose keys have the first
  -- relation to the start of the scan and the second one to its end, all of them and no other, in the order
  -- of their keys where the first relation goes forward and against it where it goes back. Steps beyond the
  -- number of pairs are enough.
  pub db_scan-between :
      (d : TableDef) (cmp1 cmp2 : Cmp) (key1 key2 : Record) (plan : ScanPlan) (s : S) (kvs : Pairs)
      (steps : ℕ)
      → plan_scan d cmp1 cmp2 key1 key2 ≡ ok plan
      → api.Stands s kvs
      → suc (length kvs) < steps
      → (db_scan api d cmp1 cmp2 key1 key2 s >>= λ sc. scanned steps s sc)
        ≡ ok (in_direction cmp1 (matching cmp2 plan.key_end (matching cmp1 plan.key_start kvs)))
  unfolding db_scan
  db_scan-between d cmp1 cmp2 key1 key2 plan s kvs steps planned stands more =
      let (turned, _, _, _) = plan_scan-IsPlan d cmp1 cmp2 key1 key2 plan planned in
      let (it, call, all) =
        >>=-eq-ok (api.seek plan.key_start cmp1 s)
          (λ it.
            visits (λ i. ok (api.valid i)) api.deref
              (λ i. if is_forward cmp1 then api.next s i else api.prev s i) steps it)
          (api.seek-matching s cmp1 plan.key_start kvs steps stands more) in
      let sorted = matching-Sorted cmp1 plan.key_start kvs (api.in_order s kvs stands) in
      rw (planned, call)
        (scanned-while_ok steps s (record { cmp1 = cmp1; cmp2 = cmp2; plan = plan; iter = it })
            (in_direction cmp1 (matching cmp1 plan.key_start kvs)) all
          ∙ ap ok (
              while_ok-in_direction cmp1 cmp2 plan.key_end (matching cmp1 plan.key_start kvs) turned
                sorted))
