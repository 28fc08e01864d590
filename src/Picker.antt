-- ===== src/Picker.antt =====
-- src/MomentFerry.Web/wwwroot/app.js, the date and time picker: the grid of a month, and the value
-- that the input holds. A date is its local fields; the calendar is the language's own, the proleptic
-- Gregorian one, from the year 0 on.
pub mod Grid
pub mod Value
pub mod Dialog
mod Tests
use moment_ferry.Common.{
  ℕ, zero, suc, ◌+◌, ◌-◌, ◌*◌, ◌/◌, ◌%◌, List, [], ◌∷◌, ◌++◌, Option, none, some, Bool, true, false,
  ◌&&◌, ◌||◌, if◌then◌else◌, ◌==◌, ltb, leb, Text, codes, get_elem?, number_at, pad2, decimal,
}

-- The local fields of a date; the month counts from 0, as in the language.
pub record Civil : Type 0 where
  pub year : ℕ
  pub month : ℕ
  pub day : ℕ
  pub hours : ℕ
  pub minutes : ℕ

abbrev pub is_leap : ℕ → Bool
is_leap y = y % 4 == 0 && (if y % 100 == 0 then y % 400 == 0 else true)

-- Days of a month, which counts from 0.
unfoldable pub month_length : ℕ → ℕ → ℕ
month_length y m =
    if m == 1
    then (if is_leap y then 29 else 28)
    else if m == 3
    then 30
    else if m == 5
    then 30
    else if m == 8
    then 30
    else if m == 10
    then 30
    else 31

-- Days before a year, and before a month of it.
unfoldable pub days_before_year : ℕ → ℕ
days_before_year y = 365 * y + ((y + 3) / 4 + (y + 399) / 400 - (y + 99) / 100)

unfoldable pub days_before_month : ℕ → ℕ → ℕ
unfolding month_length
days_before_month y zero = 0
days_before_month y (suc m) = days_before_month y m + month_length y m

unfoldable pub day_number : ℕ → ℕ → ℕ → ℕ
unfolding days_before_year days_before_month
day_number y m d = days_before_year y + days_before_month y m + (d - 1)

-- `new Date(y, m, d).getDay()`: the first day of the year 0 was a Saturday.
unfoldable pub get_day : ℕ → ℕ → ℕ → ℕ
unfolding day_number
get_day y m d = (day_number y m d + 6) % 7

-- The empty cells before the first day of a month.
pub leading : ℕ → ℕ → ℕ → ℕ
unfolding get_day
leading week_start y m = (get_day y m 1 + 7 - week_start) % 7

-- The day of the week that stands at the head of a column, as the day of a date of January 2024.
pub weekday : ℕ → ℕ → ℕ
unfolding get_day
weekday week_start i = get_day 2024 0 (7 + week_start + i)

pub data Cell : Type 0 where
  blank : Cell
  button : ℕ → Cell

abbrev repeat : ℕ → List Cell
repeat zero = []
repeat (suc n) = blank ∷ repeat n

-- The day buttons from `d` on, `n` of them.
abbrev buttons : ℕ → ℕ → List Cell
buttons d zero = []
buttons d (suc n) = button d ∷ buttons (suc d) n

-- The cells below the weekday names, row by row.
pub grid : ℕ → ℕ → ℕ → List Cell
unfolding leading
grid week_start y m = repeat (leading week_start y m) ++ buttons 1 (month_length y m)

-- The month that the buttons ‹ and › lead to: `new Date(y, m ± 1, 1)`.
unfoldable pub next_month : ℕ → ℕ → ℕ × ℕ
next_month y m = if m == 11 then (y + 1, 0) else (y, m + 1)

unfoldable pub previous_month : ℕ → ℕ → ℕ × ℕ
previous_month y m = if m == 0 then (y - 1, 11) else (y, m - 1)

-- commitPicker: the value that a chosen date is stored as.
unfoldable pub commit_picker : Civil → Text
commit_picker c =
    decimal c.year
    ++ (b'-' ∷ pad2 (c.month + 1)
        ++ (b'-' ∷ pad2 c.day ++ (b'T' ∷ pad2 c.hours ++ (b':' ∷ pad2 c.minutes))))
