-- ===== src/Base/Strings.antt =====
-- Byte strings: std::string and std::vector<uint8_t> as lists of numbers below 256, their equality
-- and their lexicographic order (char_traits<char> compares as unsigned, as uint8_t does).
use Prim.Native.Nat.{ℕ, ◌<◌, compare, Ordering}
use Prim.Native.Char.{code}
use Prim.Native.String.{String}
use mathlib.Core.Path.{◌≡◌, refl}
use mathlib.Core.Logic.{◌↔◌}
use mathlib.Core.Bool.{Bool, true, false, ◌&&◌}
use mathlib.Core.List.{List, [], ◌∷◌}
use native.Mathlib.Omega.{arith}
use sqldb.Base.Tests.{◌==◌}
use sqldb.Base.Lists.{All}

abbrev pub Bytes : Type 0
Bytes = List ℕ

abbrev pub IsByte : ℕ → Type 0
IsByte b = b < 256

abbrev pub IsBytes : Bytes → Type 0
IsBytes = All IsByte

-- The bytes of a literal of the source, which is ASCII. `String` has its own `[]` and `∷`.
abbrev pub text : String → Bytes
text String.[] = []
text (String.◌∷◌ c s) = code c ∷ text s

-- operator== of std::string and std::vector.
unfoldable pub bytes_eq : Bytes → Bytes → Bool
bytes_eq [] [] = true
bytes_eq [] (b ∷ t) = false
bytes_eq (a ∷ s) [] = false
bytes_eq (a ∷ s) (b ∷ t) = a == b && bytes_eq s t

-- The first ordering, and the second one where the first is equal.
abbrev pub then_by : Ordering → Ordering → Ordering
then_by Ordering.lt o = Ordering.lt
then_by Ordering.eq o = o
then_by Ordering.gt o = Ordering.gt

-- std::string::compare: lexicographic, by bytes.
unfoldable pub lex : Bytes → Bytes → Ordering
lex [] [] = Ordering.eq
lex [] (b ∷ t) = Ordering.lt
lex (a ∷ s) [] = Ordering.gt
lex (a ∷ s) (b ∷ t) = then_by (compare a b) (lex s t)

-- operator< of std::string and std::vector.
unfoldable pub bytes_less : Bytes → Bytes → Bool
bytes_less s t = elim (lex s t) [ Ordering.lt ↦ true | _ ↦ false ]

pub bytes_eq_iff : (s t : Bytes) → (bytes_eq s t ≡ true) ↔ (s ≡ t)
unfolding bytes_eq
bytes_eq_iff [] [] = (λ _. refl, λ _. refl)
bytes_eq_iff [] (b ∷ t) = ground arith
bytes_eq_iff (a ∷ s) [] = ground arith
bytes_eq_iff (a ∷ s) (b ∷ t) = ground (arith, bytes_eq_iff s t)

pub bytes_eq_refl : (s : Bytes) → bytes_eq s s ≡ true
bytes_eq_refl s = (bytes_eq_iff s s).1 refl

pub lex_refl : (s : Bytes) → lex s s ≡ Ordering.eq
unfolding lex
lex_refl [] = refl
lex_refl (a ∷ s) = ground (arith, lex_refl s)

pub lex-eq : (s t : Bytes) → lex s t ≡ Ordering.eq → s ≡ t
unfolding lex
lex-eq [] [] h = refl
lex-eq [] (b ∷ t) h = cc
lex-eq (a ∷ s) [] h = cc
lex-eq (a ∷ s) (b ∷ t) h = ground (arith, lex-eq s t)

-- The order with its sides swapped.
abbrev pub swap_order : Ordering → Ordering
swap_order Ordering.lt = Ordering.gt
swap_order Ordering.eq = Ordering.eq
swap_order Ordering.gt = Ordering.lt

pub lex_swap : (s t : Bytes) → lex t s ≡ swap_order (lex s t)
unfolding lex
lex_swap [] [] = refl
lex_swap [] (b ∷ t) = refl
lex_swap (a ∷ s) [] = refl
lex_swap (a ∷ s) (b ∷ t) = ground (arith, lex_swap s t)

pub lex_trans :
    (r s t : Bytes) → lex r s ≡ Ordering.lt → lex s t ≡ Ordering.lt → lex r t ≡ Ordering.lt
unfolding lex
lex_trans [] s [] h k = ground (arith, lex_swap [] s)
lex_trans [] s (c ∷ t) h k = refl
lex_trans (a ∷ r) [] t h k = cc
lex_trans (a ∷ r) (b ∷ s) [] h k = cc
lex_trans (a ∷ r) (b ∷ s) (c ∷ t) h k = ground (arith, lex_trans r s t)
