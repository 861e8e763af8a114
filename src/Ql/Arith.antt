-- ===== src/Ql/Arith.antt =====
-- Integer arithmetic of src/ql/ql_exec.cpp: int64_t operands as integers, the builtins' overflow flag
-- as a test of the exact result.
pub mod Exact
use sqldb.Base.{
  ℕ, suc, ◌+◌, ◌-◌, ◌*◌, ◌/◌, ◌%◌, ◌^◌, Bool, true, false, ◌&&◌, ◌∷◌, ℤ, pos, negsuc, sub_ℕ, ◌+ℤ◌,
  ◌-ℤ◌, ◌*ℤ◌, text, ltb, if◌then◌else◌, Result, ok, stop, failed,
}
use sqldb.Catalog.Value.{int_eq}
use sqldb.Ql.Ast.{QlNodeType, add, sub, mul, div}

abbrev pub i64_min : ℤ
i64_min = negsuc (2 ^ 63 - 1)

abbrev pub fits : ℤ → Bool
fits (pos n) = ltb n (2 ^ 63)
fits (negsuc n) = ltb n (2 ^ 63)

-- a / b and a % b of C++, for b ≢ 0: the quotient is truncated, and the rest has the sign of a.
unfoldable pub quotient : ℤ → ℤ → ℤ
quotient (pos a) (pos b) = pos (a / b)
quotient (pos a) (negsuc b) = sub_ℕ 0 (a / suc b)
quotient (negsuc a) (pos b) = sub_ℕ 0 (suc a / b)
quotient (negsuc a) (negsuc b) = pos (suc a / suc b)

unfoldable pub remainder : ℤ → ℤ → ℤ
remainder (pos a) (pos b) = pos (a % b)
remainder (pos a) (negsuc b) = pos (a % suc b)
remainder (negsuc a) (pos b) = sub_ℕ 0 (suc a % b)
remainder (negsuc a) (negsuc b) = sub_ℕ 0 (suc a % suc b)

abbrev pub checked : ℤ → Result ℤ
checked r = if fits r then ok r else stop (failed (text "integer overflow"))

-- The default case: QL_DIV, and QL_MOD for any other tag.
abbrev pub is_div : QlNodeType → Bool
is_div div = true
is_div _ = false

unfoldable pub divide : Bool → ℤ → ℤ → Result ℤ
divide dividing a b =
    if int_eq b (pos 0)
    then stop (failed (if dividing then text "division by zero" else text "modulo by zero"))
    else if int_eq a i64_min && int_eq b (negsuc 0)
    then stop (failed (text "integer overflow"))
    else ok (if dividing then quotient a b else remainder a b)

unfoldable pub arithmetic : QlNodeType → ℤ → ℤ → Result ℤ
unfolding divide
arithmetic add a b = checked (a +ℤ b)
arithmetic sub a b = checked (a -ℤ b)
arithmetic mul a b = checked (a *ℤ b)
arithmetic t a b = divide (is_div t) a b
