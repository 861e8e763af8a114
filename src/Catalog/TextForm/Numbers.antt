-- ===== src/Catalog/TextForm/Numbers.antt =====
-- A number that was written is read back.
use sqldb.Base.{
  ℕ, zero, suc, ◌+◌, ◌*◌, ◌/◌, ◌%◌, ◌^◌, ◌<◌, ◌≡◌, refl, true, false, [], ◌∷◌, ◌++◌, some, ℤ, pos,
  negsuc, Bytes, arith, lt→ltb,
}
use sqldb.Catalog.TextForm.Stream.{
  ◌>>=◌, show_digits, show_nat, show_int, is_digit, is_space, skip_spaces, read_digits, read_number,
  read_signed, read_unsigned, read_int,
}

-- The text starts with a digit, or with no digit.
abbrev pub StartsDigit : Bytes → Type 0
StartsDigit [] = ⊥
StartsDigit (c ∷ s) = is_digit c ≡ true

abbrev pub EndsNumber : Bytes → Type 0
EndsNumber [] = Unit
EndsNumber (c ∷ s) = is_digit c ≡ false

show_digits-append : (f n : ℕ) (s r : Bytes) → show_digits f n s ++ r ≡ show_digits f n (s ++ r)
unfolding show_digits
show_digits-append zero n s r = refl
show_digits-append (suc f) n s r =
    ground (arith, show_digits-append f (n / 10) ((48 + n % 10) ∷ s) r)

show_digits-StartsDigit : (f n : ℕ) (s : Bytes) → n < f → StartsDigit (show_digits f n s)
unfolding show_digits
show_digits-StartsDigit zero n s h = absurd (omega arith)
show_digits-StartsDigit (suc zero) n s h = ground arith
show_digits-StartsDigit (suc (suc f)) n s h =
    ground (arith, show_digits-StartsDigit (suc f) (n / 10) ((48 + n % 10) ∷ s))

read_digits_step :
    (a d n : ℕ) (s : Bytes)
    → d < 10
    → a * 10 + d ≡ n
    → read_digits a ((48 + d) ∷ s) ≡ read_digits n s
unfolding read_digits
read_digits_step a d n s h e = ground arith

-- Reading the digits of `n` gives `n`, and reading goes on behind them.
read_digits-show_digits :
    (f n : ℕ) (s : Bytes) → n < f → read_digits 0 (show_digits f n s) ≡ read_digits n s
unfolding show_digits
read_digits-show_digits zero n s h = absurd (omega arith)
read_digits-show_digits (suc f) n s h = ground (
  arith,
  read_digits_step 0 (n % 10) n s,
  read_digits_step (n / 10) (n % 10) n s,
  read_digits-show_digits f (n / 10) ((48 + n % 10) ∷ s),
)

read_digits_end : (n : ℕ) (s : Bytes) → EndsNumber s → read_digits n s ≡ (n, s)
unfolding read_digits
read_digits_end n [] h = refl
read_digits_end n (c ∷ s) h = rw h

read_number_digits : (s : Bytes) → StartsDigit s → read_number s ≡ some (read_digits 0 s)
unfolding read_number
read_number_digits [] h = absurd h
read_number_digits (c ∷ s) h = rw h

read_signed_digits :
    (s : Bytes) → StartsDigit s → read_signed s ≡ (read_number s >>= λ p. some (false, p.0, p.1))
unfolding read_signed
read_signed_digits [] h = absurd h
read_signed_digits (c ∷ s) h = ground arith

skip_spaces_digits : (s : Bytes) → StartsDigit s → skip_spaces s ≡ s
unfolding skip_spaces
skip_spaces_digits [] h = absurd h
skip_spaces_digits (c ∷ s) h = ground arith

pub show_nat-StartsDigit : (n : ℕ) (s : Bytes) → StartsDigit (show_nat n ++ s)
unfolding show_nat
show_nat-StartsDigit n s =
    rw (show_digits-append (suc n) n [] s) (show_digits-StartsDigit (suc n) n s (omega arith))

read_number-show_nat :
    (n : ℕ) (s : Bytes) → EndsNumber s → read_number (show_nat n ++ s) ≡ some (n, s)
read_number-show_nat n s h = rw (read_number_digits (show_nat n ++ s) (show_nat-StartsDigit n s)) (
    unfold show_nat in
    rw (
      show_digits-append (suc n) n [] s,
      read_digits-show_digits (suc n) n s (omega arith),
      read_digits_end n s h,
    ))

read_signed-show_nat :
    (n : ℕ) (s : Bytes)
    → EndsNumber s
    → read_signed (skip_spaces (show_nat n ++ s)) ≡ some (false, n, s)
read_signed-show_nat n s h =
    let starts = show_nat-StartsDigit n s in
    rw (
      skip_spaces_digits (show_nat n ++ s) starts,
      read_signed_digits (show_nat n ++ s) starts,
      read_number-show_nat n s h,
    )

read_signed_minus :
    (s : Bytes)
    → read_signed (skip_spaces (b'-' ∷ s)) ≡ (read_number s >>= λ p. some (true, p.0, p.1))
unfolding read_signed skip_spaces
read_signed_minus s = refl

pub read_unsigned-show_nat :
    (m n : ℕ) (s : Bytes) → n < m → EndsNumber s → read_unsigned m (show_nat n ++ s) ≡ some (n, s)
unfolding read_unsigned
read_unsigned-show_nat m n s h e = rw (read_signed-show_nat n s e, lt→ltb n m h)

-- A space before the number is skipped.
pub read_unsigned_space :
    (m : ℕ) (c : ℕ) (s : Bytes) → is_space c ≡ true → read_unsigned m (c ∷ s) ≡ read_unsigned m s
unfolding read_unsigned skip_spaces
read_unsigned_space m c s h = rw h

-- The values of an int of 32 bits.
abbrev pub IsInt : ℤ → Type 0
IsInt (pos n) = n < 2 ^ 31
IsInt (negsuc n) = n < 2 ^ 31

pub read_int-show_int :
    (v : ℤ) (s : Bytes) → IsInt v → EndsNumber s → read_int (show_int v ++ s) ≡ some (v, s)
unfolding read_int show_int
read_int-show_int (pos n) s h e = rw (read_signed-show_nat n s e, lt→ltb n (2 ^ 31) h)
read_int-show_int (negsuc n) s h e =
    rw (read_signed_minus (show_nat (n + 1) ++ s), read_number-show_nat (n + 1) s e) (ground arith)
