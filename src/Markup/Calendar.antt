-- ===== src/Markup/Calendar.antt =====
-- app.js, renderPicker: the markup of the date picker.
use moment_ferry.Common.{
  ℕ, zero, suc, List, [], ◌∷◌, Option, none, some, Bool, false, ◌&&◌, ◌==◌, Text, codes, flat_map,
  decimal, pad2, All, true, ◌≡◌, refl,
}
use moment_ferry.Format.{Locale}
use moment_ferry.Picker.{Civil, Cell, blank, button, grid, weekday}
use moment_ferry.Markup.{Piece, lit, pick, word, Part, always, either, pieces, say, reach, after}
use moment_ferry.Markup.Pieces.{place_after}
use moment_ferry.Markup.Templates.{Keeps, Keeps-append, keeps-Keeps, rows-Keeps, keeps, keeps_part}

-- What renderPicker reads: the month and its title, the names of weekdays and hours (none where the
-- clock has 24 hours), and whether the input may be empty.
pub record CalendarView : Type 0 where
  pub week_start : ℕ
  pub year : ℕ
  pub month : ℕ
  pub title : Text
  pub weekday_name : ℕ → Text
  pub hour_name : Option (ℕ → Text)
  pub chosen : Option Civil
  pub today : Civil
  pub optional : Bool

abbrev pub is_day : Option Civil → ℕ → ℕ → ℕ → Bool
is_day none year month day = false
is_day (some c) year month day = (c.year == year) && (c.month == month) && (c.day == day)

abbrev pub is_hour : Option Civil → ℕ → Bool
is_hour none hour = false
is_hour (some c) hour = c.hours == hour

abbrev pub is_minute : Option Civil → ℕ → Bool
is_minute none minute = false
is_minute (some c) minute = c.minutes == minute

abbrev pub hour_text : Option (ℕ → Text) → ℕ → Text
hour_text none hour = pad2 hour
hour_text (some name) hour = name hour

-- `Array.from({ length: n }, (_, i) => i)`
abbrev pub indices : ℕ → ℕ → List ℕ
indices i zero = []
indices i (suc n) = i ∷ indices (suc i) n

abbrev pub day_cell : CalendarView → Cell → List Part
day_cell v blank = always (lit (codes "<span></span>") ∷ []) ∷ []
day_cell v (button day) =
    always (
      lit (codes "<button type=\"button\" class=\"dt-day")
      ∷ pick (is_day v.chosen v.year v.month day) (codes " is-selected") []
      ∷ pick (is_day (some v.today) v.year v.month day) (codes " is-today") []
      ∷ lit (codes "\" data-day=\"")
      ∷ word (decimal day)
      ∷ lit (codes "\">")
      ∷ word (decimal day)
      ∷ lit (codes "</button>")
      ∷ [])
    ∷ []

abbrev pub weekday_head : CalendarView → ℕ → List Part
weekday_head v i =
    always (
      lit (codes "<span class=\"dt-weekday\">")
      ∷ word (v.weekday_name (weekday v.week_start i))
      ∷ lit (codes "</span>")
      ∷ [])
    ∷ []

abbrev pub time_option : Bool → ℕ → Text → List Part
time_option selected n name =
    always (
      lit (codes "<option value=\"")
      ∷ word (decimal n)
      ∷ lit (codes "\"")
      ∷ pick selected (codes " selected") []
      ∷ lit (codes ">")
      ∷ word name
      ∷ lit (codes "</option>")
      ∷ [])
    ∷ []

abbrev pub calendar_head : Locale → CalendarView → List Part
calendar_head l v =
    always (
      lit (
        codes
          "\n    <div class=\"dt-head\">\n      <button type=\"button\" class=\"btn btn-sm btn-ghost\" data-month=\"-1\" aria-label=\"")
      ∷ say l "Previous month"
      ∷ lit (codes "\">‹</button>\n      <span>")
      ∷ word v.title
      ∷ lit (
          codes
            "</span>\n      <button type=\"button\" class=\"btn btn-sm btn-ghost\" data-month=\"1\" aria-label=\"")
      ∷ say l "Next month"
      ∷ lit (codes "\">›</button>\n    </div>\n    <div class=\"dt-grid\">\n      ")
      ∷ [])
    ∷ []

abbrev pub between_days : List Part
between_days = always (lit (codes "\n      ") ∷ []) ∷ []

abbrev pub hours_open : Locale → List Part
hours_open l =
    always (
      lit (
        codes
          "\n    </div>\n    <div class=\"dt-time\">\n      <select id=\"dtHour\" aria-label=\"")
      ∷ say l "Hour"
      ∷ lit (codes "\">")
      ∷ [])
    ∷ []

abbrev pub minutes_open : Locale → List Part
minutes_open l =
    always (
      lit (codes "</select>\n      <span>:</span>\n      <select id=\"dtMinute\" aria-label=\"")
      ∷ say l "Minute"
      ∷ lit (codes "\">")
      ∷ [])
    ∷ []

abbrev pub calendar_foot : Locale → CalendarView → List Part
calendar_foot l v =
    always (
      lit (
        codes
          "</select>\n    </div>\n    <div class=\"actions\" style=\"justify-content:flex-end\">\n      ")
      ∷ [])
    ∷ either v.optional
        (lit (codes "<button type=\"button\" class=\"btn btn-sm btn-ghost\" data-clear>")
          ∷ say l "Clear"
          ∷ lit (codes "</button>")
          ∷ [])
        []
    ∷ always (
        lit (codes "\n      <button type=\"button\" class=\"btn btn-sm btn-acc\" data-done>")
        ∷ say l "Done"
        ∷ lit (codes "</button>\n    </div>")
        ∷ [])
    ∷ []

-- The blocks of the markup, one after another.
abbrev pub blocks : Locale → CalendarView → List (List Piece)
blocks l v =
    pieces (calendar_head l v)
    ∷ flat_map (λ i. pieces (weekday_head v i)) (indices 0 7)
    ∷ pieces between_days
    ∷ flat_map (λ c. pieces (day_cell v c)) (grid v.week_start v.year v.month)
    ∷ pieces (hours_open l)
    ∷ flat_map (λ n. pieces (time_option (is_hour v.chosen n) n (hour_text v.hour_name n)))
        (indices 0 24)
    ∷ pieces (minutes_open l)
    ∷ flat_map (λ n. pieces (time_option (is_minute v.chosen n) n (pad2 n))) (indices 0 60)
    ∷ pieces (calendar_foot l v)
    ∷ []

unfoldable pub render_picker : Locale → CalendarView → List Piece
render_picker l v = flat_map (λ block. block) (blocks l v)

day_cell-keeps : (v : CalendarView) (c : Cell) → keeps (day_cell v c) ≡ true
unfolding keeps keeps_part place_after reach after
day_cell-keeps v blank = refl
day_cell-keeps v (button day) = refl

Keeps-blocks : (xss : List (List Piece)) → All Keeps xss → Keeps (flat_map (λ block. block) xss)
unfolding place_after
Keeps-blocks [] h = refl
Keeps-blocks (xs ∷ xss) (h, rest) =
    Keeps-append xs (flat_map (λ block. block) xss) h (Keeps-blocks xss rest)

pub render_picker-Keeps : (l : Locale) (v : CalendarView) → Keeps (render_picker l v)
unfolding render_picker keeps keeps_part place_after reach after
render_picker-Keeps l v = Keeps-blocks (blocks l v) (
  keeps-Keeps (calendar_head l v) refl,
  (
    rows-Keeps (weekday_head v) (indices 0 7) (λ i. refl),
    (
      keeps-Keeps between_days refl,
      (
        rows-Keeps (day_cell v) (grid v.week_start v.year v.month) (day_cell-keeps v),
        (
          keeps-Keeps (hours_open l) refl,
          (
            rows-Keeps (λ n. time_option (is_hour v.chosen n) n (hour_text v.hour_name n))
                (indices 0 24) (λ n. refl),
            (
              keeps-Keeps (minutes_open l) refl,
              (
                rows-Keeps (λ n. time_option (is_minute v.chosen n) n (pad2 n)) (indices 0 60)
                    (λ n. refl),
                (keeps-Keeps (calendar_foot l v) refl, tt),
              ),
            ),
          ),
        ),
      ),
    ),
  ),
)
