-- ===== src/Picker/Grid.antt =====
-- app.js, renderPicker: which day stands where.
use moment_ferry.Common.{
  ℕ, zero, suc, ◌+◌, ◌-◌, ◌%◌, ◌≤◌, ◌<◌, List, ◌++◌, some, arith, ◌≡◌, ◌∙◌, ap, get_elem?,
}
use moment_ferry.Picker.{
  Cell, button, repeat, buttons, leading, weekday, grid, get_day, day_number, month_length,
}

suc_add : (n i : ℕ) → suc n + i ≡ suc (n + i)
suc_add n i = omega arith

get_elem?-repeat :
    (n i : ℕ) (cells : List Cell) → get_elem? (repeat n ++ cells) (n + i) ≡ get_elem? cells i
get_elem?-repeat zero i cells = ap (get_elem? cells) (omega arith)
get_elem?-repeat (suc n) i cells =
    ap (get_elem? (repeat (suc n) ++ cells)) (suc_add n i) ∙ get_elem?-repeat n i cells

get_elem?-buttons : (d n i : ℕ) → i < n → get_elem? (buttons d n) i ≡ some (button (d + i))
get_elem?-buttons d zero i h = absurd (omega arith)
get_elem?-buttons d (suc n) zero h = ap (λ k. some (button k)) (omega arith)
get_elem?-buttons d (suc n) (suc i) h =
    get_elem?-buttons (suc d) n i (omega arith) ∙ ap (λ k. some (button k)) (omega arith)

weekday-column :
    (w y m d : ℕ) → w < 7 → 1 ≤ d → weekday w ((leading w y m + (d - 1)) % 7) ≡ get_day y m d
unfolding weekday leading get_day day_number
weekday-column w y m d h k = omega arith

-- With any first day of the week, each day of a month has a button in the grid, and the name at the
-- head of its column is that of the day of the week on which it falls.
pub grid-weekday :
    (w y m d : ℕ)
    → w < 7
    → 1 ≤ d
    → d ≤ month_length y m
    → (get_elem? (grid w y m) (leading w y m + (d - 1)) ≡ some (button d))
      × (weekday w ((leading w y m + (d - 1)) % 7) ≡ get_day y m d)
unfolding grid
grid-weekday w y m d h k l = (
  get_elem?-repeat (leading w y m) (d - 1) (buttons 1 (month_length y m))
      ∙ get_elem?-buttons 1 (month_length y m) (d - 1) (omega arith)
      ∙ ap (λ n. some (button n)) (omega arith),
  weekday-column w y m d h k,
)
