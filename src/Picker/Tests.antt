-- ===== src/Picker/Tests.antt =====
-- app.js, the date picker: runs at concrete inputs.
use moment_ferry.Common.{
  List, [], ◌∷◌, none, ◌+◌, ◌-◌, ◌%◌, ◌≤◌, some, codes, decimal, pad2, arith, get_elem?, ◌≡◌, refl,
}
use moment_ferry.Picker.Dialog.{Picker, Click, open_input, next, day, time, close, click, clicks}
use moment_ferry.Picker.{
  Civil, day_number, get_day, month_length, leading, weekday, grid, button, next_month,
  previous_month, commit_picker,
}
use moment_ferry.Picker.Grid.{grid-weekday}
use moment_ferry.Picker.Value.{read_value, IsValid, read_value-commit_picker}

-- 1 January 2026 is a Thursday.
new_year : get_day 2026 0 1 ≡ 4
unfolding get_day
new_year = refl

leap_day : day_number 2024 2 1 ≡ day_number 2024 1 28 + 2
unfolding day_number
leap_day = refl

long_february : 29 ≤ month_length 2024 1
unfolding month_length
long_february = ground arith

grid-weekday_example :
    (get_elem? (grid 1 2024 1) (leading 1 2024 1 + (29 - 1)) ≡ some (button 29))
    × (weekday 1 ((leading 1 2024 1 + (29 - 1)) % 7) ≡ get_day 2024 1 29)
grid-weekday_example = grid-weekday 1 2024 1 29 (omega arith) (omega arith) long_february

abbrev evening : Civil
evening = record { year = 2024; month = 1; day = 29; hours = 21; minutes = 5 }

committed : commit_picker evening ≡ codes "2024-02-29T21:05"
unfolding commit_picker pad2 decimal
committed = refl

evening-IsValid : IsValid evening
evening-IsValid = record {
  four_digits = (omega arith, omega arith);
  month_valid = omega arith;
  day_valid = (omega arith, long_february);
  time_valid = (omega arith, omega arith);
}

read_value-commit_picker_example : read_value (commit_picker evening) ≡ some evening
read_value-commit_picker_example = read_value-commit_picker evening evening-IsValid

abbrev closed_picker : Picker
closed_picker = record {
  input = none;
  year = 2024;
  month = 0;
  hour = 0;
  minute = 0;
  values = λ id. none;
}

abbrev choice : List Click
choice = open_input (codes "eventStart") evening ∷ next ∷ day 31 ∷ time 9 30 ∷ close ∷ []

chosen_date :
    (clicks choice closed_picker).values (codes "eventStart")
    ≡ some (record { year = 2024; month = 2; day = 31; hours = 9; minutes = 30 })
unfolding clicks click next_month previous_month
chosen_date = refl
