-- ===== src/Common/Decimal.antt =====
-- `String(n)` for a whole number, and reading it back.
use Prim.Native.Nat.{ℕ, zero, suc, ◌+◌, ◌-◌, ◌*◌, ◌/◌, ◌%◌, ◌≤◌, ◌<◌}
use mathlib.Core.Path.{◌≡◌, refl, ap, ◌∙◌}
use mathlib.Core.Bool.{Bool, true, false, ◌&&◌}
use mathlib.Core.List.{[], ◌∷◌, ◌++◌}
use mathlib.Core.Logic.{inl, inr}
use native.Mathlib.Omega.{arith}
use moment_ferry.Common.Tests.{ltb, leb, if◌then◌else◌, Bool-cases}
use moment_ferry.Common.Lists.{All}
use moment_ferry.Common.Texts.{Text, codes}

-- The digits of `n` in front of `rest`; the fuel bounds their number.
digits_before : ℕ → ℕ → Text → Text
digits_before zero n rest = rest
digits_before (suc fuel) n rest =
    let shown = (b'0' + n % 10) ∷ rest in
    let more = digits_before fuel (n / 10) shown in if ltb n 10 then shown else more

unfoldable pub decimal : ℕ → Text
unfolding digits_before
decimal n = digits_before (suc n) n []

-- The number that a run of digits stands for, after `acc`.
unfoldable pub read_decimal : ℕ → Text → ℕ
read_decimal acc [] = acc
read_decimal acc (c ∷ s) = read_decimal (acc * 10 + (c - b'0')) s

abbrev pub IsDigit : ℕ → Type 0
IsDigit c = (b'0' ≤ c) × (c ≤ b'9')

read_decimal-digits_before :
    (fuel n : ℕ) (rest : Text)
    → n < fuel
    → read_decimal 0 (digits_before fuel n rest) ≡ read_decimal n rest
unfolding digits_before read_decimal
read_decimal-digits_before zero n rest h = absurd (omega arith)
read_decimal-digits_before (suc fuel) n rest h = elim (Bool-cases (ltb n 10)) [
  | inl small ↦ rw small (ap (λ k. read_decimal k rest) (ground arith))
  | inr big ↦ rw big (
      read_decimal-digits_before fuel (n / 10) _ (ground arith)
      ∙ ap (λ k. read_decimal k rest) (omega arith))
]

-- Printing a number and reading it back.
pub read_decimal-decimal : (n : ℕ) → read_decimal 0 (decimal n) ≡ n
unfolding decimal read_decimal
read_decimal-decimal n = read_decimal-digits_before (suc n) n [] (omega arith)

digits_before-IsDigit :
    (fuel n : ℕ) (rest : Text) → All IsDigit rest → All IsDigit (digits_before fuel n rest)
unfolding digits_before
digits_before-IsDigit zero n rest h = h
digits_before-IsDigit (suc fuel) n rest h = elim (Bool-cases (ltb n 10)) [
  | inl small ↦ rw small ((omega arith, omega arith), h)
  | inr big ↦ rw big (digits_before-IsDigit fuel (n / 10) _ ((omega arith, omega arith), h))
]

pub decimal-IsDigit : (n : ℕ) → All IsDigit (decimal n)
unfolding decimal
decimal-IsDigit n = digits_before-IsDigit (suc n) n [] tt

decimal_example : decimal 2024 ≡ codes "2024"
unfolding decimal
decimal_example = refl

abbrev pub is_digit : ℕ → Bool
is_digit c = leb b'0' c && leb c b'9'

-- The number at the beginning of a text, and what follows it.
unfoldable pub number_at : ℕ → Text → ℕ × Text
number_at acc [] = (acc, [])
number_at acc (c ∷ s) =
    let more = number_at (acc * 10 + (c - b'0')) s in if is_digit c then more else (acc, c ∷ s)

abbrev pub EndsNumber : Text → Type 0
EndsNumber [] = Unit
EndsNumber (c ∷ s) = is_digit c ≡ false

number_at-digits :
    (acc : ℕ) (d rest : Text)
    → All IsDigit d
    → EndsNumber rest
    → number_at acc (d ++ rest) ≡ (read_decimal acc d, rest)
unfolding number_at read_decimal
number_at-digits acc [] [] h e = refl
number_at-digits acc [] (c ∷ s) h e = ground arith
number_at-digits acc (c ∷ d) rest (p, h) e =
    ground (arith, number_at-digits (acc * 10 + (c - b'0')) d rest h e)

-- Reading a printed number, whatever follows it.
pub number_at-decimal :
    (n : ℕ) (rest : Text) → EndsNumber rest → number_at 0 (decimal n ++ rest) ≡ (n, rest)
number_at-decimal n rest e =
    number_at-digits 0 (decimal n) rest (decimal-IsDigit n) e
    ∙ ap (λ k. (k, rest)) (read_decimal-decimal n)

-- `String(n).padStart(2, '0')`
unfoldable pub pad2 : ℕ → Text
unfolding decimal
pad2 n = if ltb n 10 then b'0' ∷ decimal n else decimal n

pub number_at-pad2 :
    (n : ℕ) (rest : Text) → EndsNumber rest → number_at 0 (pad2 n ++ rest) ≡ (n, rest)
unfolding pad2 number_at
number_at-pad2 n rest e = ground (arith, number_at-decimal n rest e)

digits_before_one :
    (fuel m : ℕ) (rest : Text) → 0 < fuel → m < 10 → digits_before fuel m rest ≡ (b'0' + m) ∷ rest
unfolding digits_before
digits_before_one zero m rest f h = absurd (omega arith)
digits_before_one (suc fuel) m rest f h = ground arith

-- A number below 100 has two digits.
pub pad2_two : (n : ℕ) → n < 100 → pad2 n ≡ (b'0' + n / 10) ∷ (b'0' + n % 10) ∷ []
unfolding pad2 decimal digits_before
pad2_two n h = ground (arith, digits_before_one n (n / 10) ((b'0' + n % 10) ∷ []))

digits_before_step :
    (fuel m : ℕ) (rest : Text)
    → 0 < fuel
    → 10 ≤ m
    → digits_before fuel m rest ≡ digits_before (fuel - 1) (m / 10) ((b'0' + m % 10) ∷ rest)
unfolding digits_before
digits_before_step zero m rest f h = absurd (omega arith)
digits_before_step (suc fuel) m rest f h = ground (arith, suc_sub_one fuel)
  where
    suc_sub_one : (k : ℕ) → suc k - 1 ≡ k
    suc_sub_one k = omega arith

-- A number of four digits.
pub decimal_four :
    (n : ℕ)
    → 1000 ≤ n
    → n < 10000
    → decimal n
      ≡ (b'0' + n / 10 / 10 / 10)
        ∷ (b'0' + n / 10 / 10 % 10)
        ∷ (b'0' + n / 10 % 10)
        ∷ (b'0' + n % 10)
        ∷ []
unfolding decimal
decimal_four n h k =
    digits_before_step (suc n) n [] (omega arith) (omega arith)
    ∙ digits_before_step (suc n - 1) (n / 10) _ (omega arith) (omega arith)
    ∙ digits_before_step (suc n - 1 - 1) (n / 10 / 10) _ (omega arith) (omega arith)
    ∙ digits_before_one (suc n - 1 - 1 - 1) (n / 10 / 10 / 10) _ (omega arith) (omega arith)

abbrev pub AreDigits : Text → Type 0
AreDigits s = All (λ c. is_digit c ≡ true) s

digits_choice :
    (b : Bool) (one other : Text)
    → AreDigits one
    → AreDigits other
    → AreDigits (if b then one else other)
digits_choice true one other h k = h
digits_choice false one other h k = k

digits_before-digits :
    (fuel n : ℕ) (rest : Text) → AreDigits rest → AreDigits (digits_before fuel n rest)
unfolding digits_before
digits_before-digits zero n rest h = h
digits_before-digits (suc fuel) n rest h =
    let shown : AreDigits ((b'0' + n % 10) ∷ rest) = (ground arith, h) in
    digits_choice (ltb n 10) ((b'0' + n % 10) ∷ rest)
      (digits_before fuel (n / 10) ((b'0' + n % 10) ∷ rest)) shown
      (digits_before-digits fuel (n / 10) ((b'0' + n % 10) ∷ rest) shown)

pub decimal-digits : (n : ℕ) → AreDigits (decimal n)
unfolding decimal
decimal-digits n = digits_before-digits (suc n) n [] tt

pub pad2-digits : (n : ℕ) → AreDigits (pad2 n)
unfolding pad2
pad2-digits n =
    digits_choice (ltb n 10) (b'0' ∷ decimal n) (decimal n) (refl, decimal-digits n)
      (decimal-digits n)
