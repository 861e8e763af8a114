-- ===== src/Ql/Range/Bound.antt =====
-- What a bound says of a row, and that updating one bound keeps the others.
use sqldb.Base.{
  ◌≡◌, Ordering, Bool, true, false, [], ◌∷◌, some, Bytes, bytes_eq, bytes_eq_iff, inl, inr,
  Bool-cases, if◌then◌else◌, ok, subst, not as not_bool, ◌||◌,
}
use sqldb.Catalog.Value.{Value}
use sqldb.Catalog.Record.{Record, get}
use sqldb.Ql.Ast.{QlNodeType, ge, gt, lt, le, eq}
use sqldb.Ql.Eval.{compare_values, cmp_holds}
use sqldb.Ql.Range.{
  ColBound, no_bound, Bounds, find, modify, tighten, tighten_lo, tighten_hi, add_bound, value_less,
}

-- The comparison of `v` with `w` by `op` evaluates to true.
abbrev pub Passes : QlNodeType → Value → Value → Type 0
Passes op v w = (o : Ordering) × (compare_values v w ≡ ok o) × (cmp_holds op o ≡ true)

-- The value lies within the bound.
pub record Meets (b : ColBound) (v : Value) : Type 0 where
  pub eq_met : b.has_eq ≡ true → Passes eq v b.eq_val
  pub lo_met : b.has_lo ≡ true → Passes (if b.lo_open then gt else ge) v b.lo
  pub hi_met : b.has_hi ≡ true → Passes (if b.hi_open then lt else le) v b.hi

-- The row has a value in the column, and it lies within the bound.
abbrev pub Within : Record → Bytes → ColBound → Type 0
Within row col b = (v : Value) × (get row col ≡ some v) × Meets b v

-- The row lies within every bound.
abbrev pub Holds : Record → Bounds → Type 0
Holds row [] = Unit
Holds row ((c, b) ∷ bounds) = Within row c b × Holds row bounds

no_bound-Meets : (v : Value) → Meets no_bound v
no_bound-Meets v = record { eq_met = λ e. cc; lo_met = λ e. cc; hi_met = λ e. cc }

modify-Holds :
    (row : Record) (col : Bytes) (v : Value) (f : ColBound → ColBound) (bounds : Bounds)
    → get row col ≡ some v
    → ((b : ColBound) → Meets b v → Meets (f b) v)
    → Holds row bounds
    → Holds row (modify col f bounds)
unfolding modify
modify-Holds row col v f [] e keep h = ((v, e, keep no_bound (no_bound-Meets v)), tt)
modify-Holds row col v f ((c, b) ∷ bounds) e keep h = elim (Bool-cases (bytes_eq c col)) [
  | inl hit ↦
      let same : c ≡ col = (bytes_eq_iff c col).0 hit in
      let (w, g, m) = h.0 in
      let here : get row c ≡ some v = rw same e in
      let value : w ≡ v = cc in rw hit ((v, here, keep b (subst (Meets b) value m)), h.1)
  | inr miss ↦ rw miss (h.0, modify-Holds row col v f bounds e keep h.1)
]

tighten_lo-Meets :
    (v w : Value) (open' : Bool) (b : ColBound)
    → Passes (if open' then gt else ge) v w
    → Meets b v
    → Meets (tighten_lo open' w b) v
unfolding tighten_lo
tighten_lo-Meets v w open' b p m = elim (Bool-cases (not_bool b.has_lo || value_less b.lo w)) [
  | inl new ↦ rw new (record { eq_met = m.eq_met; lo_met = λ _. p; hi_met = m.hi_met })
  | inr old ↦ rw old m
]

tighten_hi-Meets :
    (v w : Value) (open' : Bool) (b : ColBound)
    → Passes (if open' then lt else le) v w
    → Meets b v
    → Meets (tighten_hi open' w b) v
unfolding tighten_hi
tighten_hi-Meets v w open' b p m = elim (Bool-cases (not_bool b.has_hi || value_less w b.hi)) [
  | inl new ↦ rw new (record { eq_met = m.eq_met; lo_met = m.lo_met; hi_met = λ _. p })
  | inr old ↦ rw old m
]

-- Updating a bound by a comparison that the value passes keeps the value within it.
tighten-Meets :
    (op : QlNodeType) (v w : Value) (b : ColBound)
    → Passes op v w
    → Meets b v
    → Meets (tighten op w b) v
unfolding tighten
tighten-Meets eq v w b p m = elim (Bool-cases b.has_eq) [
  | inl old ↦ simp old m
  | inr new ↦ simp new (record { eq_met = λ _. p; lo_met = m.lo_met; hi_met = m.hi_met })
]
tighten-Meets gt v w b p m = tighten_lo-Meets v w true b p m
tighten-Meets ge v w b p m = tighten_lo-Meets v w false b p m
tighten-Meets lt v w b p m = tighten_hi-Meets v w true b p m
tighten-Meets le v w b p m = tighten_hi-Meets v w false b p m
tighten-Meets _ v w b p m = m

pub add_bound-Holds :
    (row : Record) (op : QlNodeType) (col : Bytes) (v w : Value) (bounds : Bounds)
    → get row col ≡ some v
    → Passes op v w
    → Holds row bounds
    → Holds row (add_bound op col w bounds)
unfolding add_bound
add_bound-Holds row op col v w bounds e p h =
    modify-Holds row col v (tighten op w) bounds e (λ b m. tighten-Meets op v w b p m) h

pub find-Holds :
    (row : Record) (col : Bytes) (b : ColBound) (bounds : Bounds)
    → find col bounds ≡ some b
    → Holds row bounds
    → Within row col b
unfolding find
find-Holds row col b [] e h = cc
find-Holds row col b ((c, x) ∷ bounds) e h = elim (Bool-cases (bytes_eq c col)) [
  | inl hit ↦
      let same : c ≡ col = (bytes_eq_iff c col).0 hit in
      let found : some x ≡ some b = rw hit at e in
      let bound : x ≡ b = cc in subst (Within row col) bound (rw same at h.0)
  | inr miss ↦ find-Holds row col b bounds (rw miss at e) h.1
]
