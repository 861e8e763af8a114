-- ===== src/Ql/Arith/Exact.antt =====
-- Division and bounds of the arithmetic of src/ql/ql_exec.cpp.
use sqldb.Base.{
  ℕ, zero, suc, ◌+◌, ◌^◌, ◌≤◌, ◌<◌, ◌≡◌, Bool, true, false, ◌&&◌, ℤ, pos, negsuc, pos_part,
  neg_part, sub_ℕ, ◌+ℤ◌, ◌-ℤ◌, ◌*ℤ◌, ok, arith,
}
use sqldb.Catalog.Value.{int_eq}
use sqldb.Ql.Ast.{QlNodeType, add, sub, mul}
use sqldb.Ql.Arith.{fits, i64_min, quotient, remainder, checked, is_div, divide, arithmetic}
use native.Mathlib.Nat

sub_ℕ-fits : (a b : ℕ) → a < 2 ^ 63 → b ≤ 2 ^ 63 → fits (sub_ℕ a b) ≡ true
sub_ℕ-fits a b h k = ground arith

quotient-fits :
    (a b : ℤ)
    → fits a ≡ true
    → int_eq b (pos 0) ≡ false
    → (int_eq a i64_min && int_eq b (negsuc 0)) ≡ false
    → fits (quotient a b) ≡ true
unfolding quotient
quotient-fits (pos a) (pos b) h nonzero safe = ground (arith, Nat.div-le_self a b)
quotient-fits (pos a) (negsuc b) h nonzero safe = ground (arith, Nat.div-le_self a (suc b))
quotient-fits (negsuc a) (pos b) h nonzero safe = ground (arith, Nat.div-le_self (suc a) b)
quotient-fits (negsuc a) (negsuc zero) h nonzero safe = ground (arith, Nat.div-one (suc a))
quotient-fits (negsuc a) (negsuc (suc b)) h nonzero safe =
    ground (arith, Nat.div-lt_self {n = suc a} {k = suc (suc b)} (omega arith) (omega arith))

remainder-fits : (a b : ℤ) → fits a ≡ true → fits (remainder a b) ≡ true
unfolding remainder
remainder-fits (pos a) (pos b) h = ground (arith, Nat.mod-le a b)
remainder-fits (pos a) (negsuc b) h = ground (arith, Nat.mod-le a (suc b))
remainder-fits (negsuc a) (pos b) h = ground (arith, Nat.mod-le (suc a) b)
remainder-fits (negsuc a) (negsuc b) h = ground (arith, Nat.mod-le (suc a) (suc b))

divide-fits :
    (dividing : Bool) (a b r : ℤ) → fits a ≡ true → divide dividing a b ≡ ok r → fits r ≡ true
unfolding divide
divide-fits dividing a b r h e = ground (arith, quotient-fits a b h, remainder-fits a b h)

pub checked-fits : (n r : ℤ) → checked n ≡ ok r → fits r ≡ true
checked-fits n r e = ground arith

pub arithmetic-fits :
    (t : QlNodeType) (a b r : ℤ) → fits a ≡ true → arithmetic t a b ≡ ok r → fits r ≡ true
unfolding arithmetic
arithmetic-fits add a b r h e = checked-fits (a +ℤ b) r e
arithmetic-fits sub a b r h e = checked-fits (a -ℤ b) r e
arithmetic-fits mul a b r h e = checked-fits (a *ℤ b) r e
arithmetic-fits t a b r h e = divide-fits (is_div t) a b r h e

-- An integer without its sign.
abbrev pub magnitude : ℤ → ℕ
magnitude n = pos_part n + neg_part n

remainder_small : (a b : ℤ) → int_eq b (pos 0) ≡ false → magnitude (remainder a b) < magnitude b
unfolding remainder
remainder_small (pos a) (pos b) nonzero = ground (arith, Nat.mod-lt a {m = b} (ground arith))
remainder_small (pos a) (negsuc b) nonzero = ground (arith, Nat.mod-lt a {m = suc b} (omega arith))
remainder_small (negsuc a) (pos b) nonzero =
    ground (arith, Nat.mod-lt (suc a) {m = b} (ground arith))
remainder_small (negsuc a) (negsuc b) nonzero =
    ground (arith, Nat.mod-lt (suc a) {m = suc b} (omega arith))

quotient-remainder : (a b : ℤ) → int_eq b (pos 0) ≡ false → (quotient a b *ℤ b) +ℤ remainder a b ≡ a
unfolding quotient remainder ◌*ℤ◌ ◌+ℤ◌
quotient-remainder (pos a) (pos b) nonzero = ground (arith, Nat.div-add-mod' a b)
quotient-remainder (pos a) (negsuc b) nonzero = ground (arith, Nat.div-add-mod' a (suc b))
quotient-remainder (negsuc a) (pos b) nonzero = ground (arith, Nat.div-add-mod' (suc a) b)
quotient-remainder (negsuc a) (negsuc b) nonzero = ground (arith, Nat.div-add-mod' (suc a) (suc b))

-- Division and modulo of an int64_t by a nonzero one, but for the least by -1, both succeed, and fit
-- int64_t. The quotient times the divisor, plus the remainder, is the dividend, and the remainder is
-- smaller than the divisor, signs aside.
pub divide_law :
    (a b : ℤ)
    → fits a ≡ true
    → int_eq b (pos 0) ≡ false
    → (int_eq a i64_min && int_eq b (negsuc 0)) ≡ false
    → (q : ℤ) × (m : ℤ) × (divide true a b ≡ ok q)
      × (divide false a b ≡ ok m)
      × ((q *ℤ b) +ℤ m ≡ a)
      × (magnitude m < magnitude b)
      × (fits q ≡ true)
      × (fits m ≡ true)
unfolding divide
divide_law a b h nonzero safe = (
  quotient a b,
  remainder a b,
  ground arith,
  ground arith,
  quotient-remainder a b nonzero,
  remainder_small a b nonzero,
  quotient-fits a b h nonzero safe,
  remainder-fits a b h,
)
