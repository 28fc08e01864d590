-- ===== src/Picker/Dialog.antt =====
-- app.js, the picker as a dialog: openPicker, closePicker and the handlers of its clicks and changes. What
-- an input holds is the date that its text stands for (Picker/Value reads the text back).
use moment_ferry.Common.{ℕ, List, [], ◌∷◌, Option, none, some, if◌then◌else◌, Text, text_eq}
use moment_ferry.Picker.{Civil, next_month, previous_month}

pub record Picker : Type 0 where
  -- The input that the picker is open for.
  pub input : Option Text
  pub year : ℕ
  pub month : ℕ
  -- What the selects of the time show.
  pub hour : ℕ
  pub minute : ℕ
  pub values : Text → Option Civil

pub data Click : Type 0 where
  -- A click or a key on an input, with the local time.
  open_input : Text → Civil → Click
  next previous clear close : Click
  -- The button of a day.
  day : ℕ → Click
  -- A change of the selects.
  time : ℕ → ℕ → Click

abbrev pub value_of : Picker → Option Text → Option Civil
value_of p none = none
value_of p (some id) = p.values id

abbrev pub hour_of : Option Civil → ℕ
hour_of none = 0
hour_of (some c) = c.hours

abbrev pub minute_of : Option Civil → ℕ
minute_of none = 0
minute_of (some c) = c.minutes

-- renderPicker: the selects show the value's time, or their first options.
abbrev pub show : Picker → Picker
show p = record p { hour = hour_of (value_of p p.input); minute = minute_of (value_of p p.input) }

-- The stored value of one input.
abbrev pub stored_in : Text → Option Civil → (Text → Option Civil) → Text → Option Civil
stored_in id v values other = if text_eq id other then v else values other

-- `pickerValue() || new Date()`
abbrev pub shown_date : Option Civil → Civil → Civil
shown_date none now = now
shown_date (some c) now = c

abbrev pub opened : Text → Civil → Picker → Picker
opened id now p = record p {
  input = some id;
  year = (shown_date (p.values id) now).year;
  month = (shown_date (p.values id) now).month;
}

abbrev pub turned : ℕ × ℕ → Picker → Picker
turned (y, m) p = record p { year = y; month = m }

-- commitPicker of a day, with the time of the selects.
abbrev pub chosen : Text → ℕ → Picker → Picker
chosen id d p = record p {
  values =
      stored_in id
        (some
          (record { year = p.year; month = p.month; day = d; hours = p.hour; minutes = p.minute }))
        p.values;
}

-- A click while the picker is open for an input, on what renderPicker wrote.
abbrev pub on_open : Text → Click → Picker → Picker
on_open id (open_input other now) p = show (opened other now p)
on_open id next p = show (turned (next_month p.year p.month) p)
on_open id previous p = show (turned (previous_month p.year p.month) p)
on_open id clear p = record p { input = none; values = stored_in id none p.values }
on_open id close p = record p { input = none }
on_open id (day d) p = show (chosen id d p)
on_open id (time h m) p = record p {
  hour = h;
  minute = m;
  values =
      stored_in id
        (elim (p.values id) [ none ↦ none | some c ↦ some (record c { hours = h; minutes = m }) ])
        p.values;
}

abbrev pub on_closed : Click → Picker → Picker
on_closed (open_input other now) p = on_open other (open_input other now) p
on_closed _ p = p

abbrev pub dispatch : Option Text → Click → Picker → Picker
dispatch none c p = on_closed c p
dispatch (some id) c p = on_open id c p

unfoldable pub click : Click → Picker → Picker
unfolding next_month previous_month
click c p = dispatch p.input c p

unfoldable pub clicks : List Click → Picker → Picker
unfolding click
clicks [] p = p
clicks (c ∷ cs) p = clicks cs (click c p)
