-- ===== src/Picker/Value.antt =====
-- app.js, commitPicker and pickerValue: storing a date and reading it back.
use moment_ferry.Common.{
  ℕ, zero, suc, ◌+◌, ◌-◌, ◌≤◌, ◌<◌, [], ◌∷◌, ◌++◌, Option, none, some, ◌&&◌, if◌then◌else◌, ◌==◌,
  ltb, leb, Text, arith, ◌≡◌, ◌*◌, pad2, decimal, pad2_two, decimal_four, is_digit, is_empty,
  append-nil,
}
use moment_ferry.Picker.{Civil, commit_picker, month_length}

-- Reading `YYYY-MM-DDTHH:mm` as a local date: five numbers, each after its separator.
infixl 5 ◌>>=◌
abbrev ◌>>=◌ {ℓ κ} : {A : Type ℓ} {B : Type κ} → Option A → (A → Option B) → Option B
none >>= f = none
some a >>= f = f a

after : ℕ → Text → Option Text
after c [] = none
after c (d ∷ s) = if d == c then some s else none

-- A number of so many digits, and what follows it.
read_digits : ℕ → ℕ → Text → Option (ℕ × Text)
read_digits zero acc s = some (acc, s)
read_digits (suc n) acc [] = none
read_digits (suc n) acc (c ∷ s) =
    let more = read_digits n (acc * 10 + (c - b'0')) s in if is_digit c then more else none

in_range : Civil → Option Civil
in_range c =
    if ltb c.month 12 && (leb 1 c.day && (leb c.day 31 && (ltb c.hours 24 && ltb c.minutes 60)))
    then some c
    else none

-- `new Date(value)` at a local date and time without seconds: the language's format has four digits
-- for the year and two for each other field.
pub read_value : Text → Option Civil
unfolding after in_range
read_value s = do
  (year, s₁) ← read_digits 4 0 s
  (month, s₂) ← after b'-' s₁ >>= read_digits 2 0
  (day, s₃) ← after b'-' s₂ >>= read_digits 2 0
  (hours, s₄) ← after b'T' s₃ >>= read_digits 2 0
  (minutes, s₅) ← after b':' s₄ >>= read_digits 2 0
  if ltb 0 month && is_empty s₅
      then in_range
          (record { year = year; month = month - 1; day = day; hours = hours; minutes = minutes })
      else none

read_digits-pad2 :
    (n : ℕ) (rest : Text) → n < 100 → read_digits 2 0 (pad2 n ++ rest) ≡ some (n, rest)
unfolding read_digits
read_digits-pad2 n rest h = rw (pad2_two n h) (ground arith)

read_digits-decimal :
    (n : ℕ) (rest : Text)
    → 1000 ≤ n
    → n < 10000
    → read_digits 4 0 (decimal n ++ rest) ≡ some (n, rest)
unfolding read_digits
read_digits-decimal n rest h k = rw (decimal_four n h k) (ground arith)

-- A date with a year of four digits.
pub record IsValid (c : Civil) : Type 0 where
  pub four_digits : (1000 ≤ c.year) × (c.year < 10000)
  pub month_valid : c.month < 12
  pub day_valid : (1 ≤ c.day) × (c.day ≤ month_length c.year c.month)
  pub time_valid : (c.hours < 24) × (c.minutes < 60)

month_length-le : (y m : ℕ) → month_length y m ≤ 31
unfolding month_length
month_length-le y m = ground arith

add_sub_one : (n : ℕ) → n + 1 - 1 ≡ n
add_sub_one n = omega arith

-- The value that the picker stores for a date of the calendar with a year of four digits is read back
-- as that date.
pub read_value-commit_picker : (c : Civil) → IsValid c → read_value (commit_picker c) ≡ some c
unfolding read_value commit_picker
read_value-commit_picker c v =
    let time : Text = pad2 c.hours ++ (b':' ∷ pad2 c.minutes) in
    let days : Text = pad2 c.day ++ (b'T' ∷ time) in
    let months : Text = pad2 (c.month + 1) ++ (b'-' ∷ days) in
    ground (
      arith,
      read_digits-decimal c.year (b'-' ∷ months) v.four_digits.0 v.four_digits.1,
      read_digits-pad2 (c.month + 1) (b'-' ∷ days),
      read_digits-pad2 c.day (b'T' ∷ time),
      read_digits-pad2 c.hours (b':' ∷ pad2 c.minutes),
      read_digits-pad2 c.minutes [],
      append-nil (pad2 c.minutes),
      month_length-le c.year c.month,
      add_sub_one c.month,
    )
