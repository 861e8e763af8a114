-- ===== src/Storage/Visits.antt =====
-- What a seek and the loop of its caller are for: the pairs of a map that have a relation to a key, in the
-- direction of the relation.
use sqldb.Base.{
  sym, >>=-eq-ok, ok-injective, ℕ, zero, suc, ◌≡◌, Bool, true, [], ◌∷◌, reverse, if◌then◌else◌,
  Bytes, Result, ok, stop, out_of_fuel, ◌>>=◌,
}
use sqldb.Storage.SortedMap.{Pair, Pairs}
use sqldb.Storage.Cmp.{Cmp, cmp_ok, is_forward}

-- The loop: it reads a pair and steps, until there is none.
unfoldable pub visits :
    {I : Type 0} (valid : I → Result Bool) (deref : I → Result Pair) (step : I → Result I)
    → ℕ
    → I
    → Result Pairs
visits valid deref step zero it = stop out_of_fuel
visits valid deref step (suc steps) it =
    let more =
      (deref it >>= λ kv.
      step it >>= λ on. visits valid deref step steps on >>= λ rest. ok (kv ∷ rest)) in
    valid it >>= λ good. if good then more else ok []

-- A round of the loop.
pub visits-round :
    {I : Type 0} (valid : I → Result Bool) (deref : I → Result Pair) (step : I → Result I)
    (steps : ℕ) (it : I) (kvs : Pairs)
    → visits valid deref step (suc steps) it ≡ ok kvs
    → valid it ≡ ok true
    → (kv : Pair) × (on : I) × (rest : Pairs) × (deref it ≡ ok kv)
      × (step it ≡ ok on)
      × (visits valid deref step steps on ≡ ok rest)
      × (kvs ≡ kv ∷ rest)
unfolding visits
visits-round valid deref step steps it kvs h good =
    let (kv, read, h') =
      >>=-eq-ok (deref it)
        (λ kv. step it >>= λ on. visits valid deref step steps on >>= λ rest. ok (kv ∷ rest))
        (rw good at h) in
    let (on, moved, h'') =
      >>=-eq-ok (step it) (λ on. visits valid deref step steps on >>= λ rest. ok (kv ∷ rest)) h' in
    let (rest, later, whole) =
      >>=-eq-ok (visits valid deref step steps on) (λ rest. ok (kv ∷ rest)) h'' in
    (kv, on, rest, read, moved, later, sym (ok-injective whole))

-- The pairs whose key has the relation to the given one.
unfoldable pub matching : Cmp → Bytes → Pairs → Pairs
matching cmp key [] = []
matching cmp key (kv ∷ kvs) =
    let rest = matching cmp key kvs in if cmp_ok kv.0 cmp key then kv ∷ rest else rest

abbrev pub in_direction : Cmp → Pairs → Pairs
in_direction cmp kvs = if is_forward cmp then kvs else reverse kvs
