-- ===== src/Base/Outcome.antt =====
-- How a call of the program ends.
use mathlib.Core.Path.{◌≡◌, refl}
use mathlib.Core.Logic.{◌⊎◌, inl, inr}
use mathlib.Core.Bool.{Bool, true, false}
use mathlib.Core.Option.{Option, none, some}
use sqldb.Base.Strings.{Bytes}

-- What a C++ exception carries.
pub data Exception : Type 0 where
  invalid_argument logic_error out_of_range runtime_error : Bytes → Exception

-- A call returns false with *err set, returns false (or a null pointer) with *err untouched, throws,
-- runs into an assert that does not hold, or takes more steps than the model's fuel.
pub data Stop : Type 0 where
  failed : Bytes → Stop
  absent : Stop
  thrown : Exception → Stop
  asserted : Stop
  out_of_fuel : Stop

pub data Result {ℓ} (A : Type ℓ) : Type ℓ where
  ok : A → Result A
  stop : Stop → Result A

-- A call that stops ends its caller; one that returns goes on with the result.
infixl 5 ◌>>◌ ◌>>=◌
abbrev pub ◌>>=◌ {κ μ} : {X : Type κ} {Y : Type μ} → Result X → (X → Result Y) → Result Y
stop e >>= next = stop e
ok x >>= next = next x

-- The same behind a check, which returns nothing.
abbrev pub ◌>>◌ {κ} : {Y : Type κ} → Result (Unit {0}) → Result Y → Result Y
check >> later = check >>= λ passed. later

-- `if (!b) ...` on the ways above.
abbrev pub ensure : Bool → Stop → Result (Unit {0})
ensure true e = ok tt
ensure false e = stop e

abbrev pub or_stop {ℓ} : {A : Type ℓ} → Option A → Stop → Result A
or_stop none e = stop e
or_stop (some a) e = ok a

-- A chain that returns has returned at each of its calls.
pub >>=-eq-ok {κ μ} :
    {X : Type κ} {Y : Type μ} (call : Result X) (next : X → Result Y) {y : Y}
    → (call >>= next) ≡ ok y
    → (x : X) × (call ≡ ok x) × (next x ≡ ok y)
>>=-eq-ok (stop e) next h = cc
>>=-eq-ok (ok x) next h = (x, refl, h)

pub ok-injective {ℓ} : {A : Type ℓ} {a b : A} → ok a ≡ ok b → a ≡ b
ok-injective h = cc

-- `ensure` passes only where its test holds.
pub ensure-ok : (b : Bool) (e : Stop) {u : Unit {0}} → ensure b e ≡ ok u → b ≡ true
ensure-ok true e h = refl
ensure-ok false e h = cc

pub ensure_then-ok {κ} :
    (b : Bool) (e : Stop) {Y : Type κ} (later : Result Y) {y : Y}
    → (ensure b e >> later) ≡ ok y
    → (b ≡ true) × (later ≡ ok y)
ensure_then-ok true e later h = (refl, h)
ensure_then-ok false e later h = cc

pub Result-cases {ℓ} :
    {A : Type ℓ} (r : Result A) → ((a : A) × (r ≡ ok a)) ⊎ ((e : Stop) × (r ≡ stop e))
Result-cases (ok a) = inl (a, refl)
Result-cases (stop e) = inr (e, refl)
