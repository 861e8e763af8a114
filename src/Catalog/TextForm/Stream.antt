-- ===== src/Catalog/TextForm/Stream.antt =====
-- What the standard streams do with the reads and writes of src/catalog/tabledef.cpp, in the "C"
-- locale and base 10.
use sqldb.Base.{
  ℕ, zero, suc, ◌+◌, ◌-◌, ◌*◌, ◌/◌, ◌%◌, ◌^◌, Bool, true, false, ◌&&◌, ◌||◌, not, [], ◌∷◌, Option,
  none, some, ℤ, pos, negsuc, sub_ℕ, Bytes, leb, ltb, ◌==◌, if◌then◌else◌,
}

infixl 5 ◌>>=◌
abbrev pub ◌>>=◌ {ℓ κ} : {A : Type ℓ} {B : Type κ} → Option A → (A → Option B) → Option B
none >>= f = none
some a >>= f = f a

-- The decimal digits of `n` in front of `acc`.
unfoldable pub show_digits : ℕ → ℕ → Bytes → Bytes
show_digits zero n acc = acc
show_digits (suc fuel) n acc =
    let more = show_digits fuel (n / 10) ((48 + n % 10) ∷ acc) in
    if n / 10 == 0 then (48 + n % 10) ∷ acc else more

-- operator<< of an unsigned number.
unfoldable pub show_nat : ℕ → Bytes
show_nat n = show_digits (suc n) n []

-- operator<< of an int.
unfoldable pub show_int : ℤ → Bytes
show_int (pos n) = show_nat n
show_int (negsuc n) = b'-' ∷ show_nat (n + 1)

abbrev pub is_space : ℕ → Bool
is_space c = c == b' ' || (leb 9 c && leb c 13)

abbrev pub is_digit : ℕ → Bool
is_digit c = leb 48 c && leb c 57

-- std::getline: the line without its newline. It fails only where nothing is left.
unfoldable pub take_line : Bytes → Bytes × Bytes
take_line [] = ([], [])
take_line (c ∷ s) = let (line, rest) = take_line s in if c == 10 then ([], s) else (c ∷ line, rest)

unfoldable pub get_line : Bytes → Option (Bytes × Bytes)
get_line [] = none
get_line (c ∷ s) = some (take_line (c ∷ s))

unfoldable pub skip_spaces : Bytes → Bytes
skip_spaces [] = []
skip_spaces (c ∷ s) = let rest = skip_spaces s in if is_space c then rest else c ∷ s

-- in.ignore()
unfoldable pub ignore : Bytes → Bytes
ignore [] = []
ignore (c ∷ s) = s

unfoldable pub take_word : Bytes → Bytes × Bytes
take_word [] = ([], [])
take_word (c ∷ s) =
    let (word, rest) = take_word s in if is_space c then ([], c ∷ s) else (c ∷ word, rest)

-- A read of no character fails.
abbrev pub read_some : Bytes × Bytes → Option (Bytes × Bytes)
read_some ([], s) = none
read_some (c ∷ word, s) = some (c ∷ word, s)

-- operator>> of a string.
unfoldable pub read_word : Bytes → Option (Bytes × Bytes)
read_word s = read_some (take_word (skip_spaces s))

unfoldable pub read_digits : ℕ → Bytes → ℕ × Bytes
read_digits n [] = (n, [])
read_digits n (c ∷ s) =
    let more = read_digits (n * 10 + (c - 48)) s in if is_digit c then more else (n, c ∷ s)

-- At least one digit.
unfoldable pub read_number : Bytes → Option (ℕ × Bytes)
read_number [] = none
read_number (c ∷ s) = if is_digit c then some (read_digits 0 (c ∷ s)) else none

-- The sign, whether it is a minus, and the digits.
unfoldable pub read_signed : Bytes → Option (Bool × ℕ × Bytes)
read_signed [] = none
read_signed (c ∷ s) =
    if c == b'-'
    then (do (n, rest) ← read_number s; some (true, n, rest))
    else if c == b'+'
    then (do (n, rest) ← read_number s; some (false, n, rest))
    else do (n, rest) ← read_number (c ∷ s); some (false, n, rest)

-- operator>> of an unsigned type with values below `m`: a number out of range fails, and a minus
-- negates modulo `m`.
unfoldable pub read_unsigned : ℕ → Bytes → Option (ℕ × Bytes)
read_unsigned m s = do
  (minus, n, rest) ← read_signed (skip_spaces s)
  if not (ltb n m) then none else some ((if minus then (m - n) % m else n), rest)

-- operator>> of an int, which has 32 bits.
unfoldable pub read_int : Bytes → Option (ℤ × Bytes)
read_int s = do
  (minus, n, rest) ← read_signed (skip_spaces s)
  let negative = if leb n (2 ^ 31) then some (sub_ℕ 0 n, rest) else none
  let positive = if ltb n (2 ^ 31) then some (pos n, rest) else none
  if minus then negative else positive
