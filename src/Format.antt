-- ===== src/Format.antt =====
-- src/MomentFerry.Web/wwwroot/app.js: how dates, sizes, durations, offsets and the countdown to the
-- next scan are shown. What the browser's locale data decides, the spelling of a date and of a
-- grouped number, is a field of `Locale`. Sizes are whole numbers below 2 ^ 53, so that the
-- divisions by 1024 are exact; an instant from the API is a date.
pub mod Bytes
pub mod Clock
mod Tests
use moment_ferry.Common.{
  Bool, true, false, ℕ, zero, suc, ◌+◌, ◌-◌, ◌*◌, ◌/◌, ◌%◌, ◌^◌, List, [], ◌∷◌, ◌++◌, Option, none,
  some, if◌then◌else◌, ◌==◌, leb, ltb, Text, codes, get_elem?, decimal, pad2,
}
use moment_ferry.I18n.{Messages, t}

pub record Locale : Type 0 where
  pub messages : Messages
  pub date_string : ℕ → Text
  pub number_string : ℕ → Text

unfoldable pub format_date : Locale → Option ℕ → Text
format_date l none = t l.messages (codes "unknown") none
format_date l (some at) = l.date_string at

-- `number >= 1024 && index < units.length - 1`, where `number` is `v / 1024 ^ index` and `left` is
-- the number of larger units.
pub unit_index : ℕ → ℕ → ℕ → ℕ
unit_index zero v index = index
unit_index (suc left) v index =
    let rest = unit_index left v (suc index) in if leb (1024 ^ suc index) v then rest else index

-- `toFixed(1)` of `v / 1024 ^ index`, in tenths: the nearest, and the larger of two.
pub tenths : ℕ → ℕ → ℕ
tenths v index = (20 * v + 1024 ^ index) / (2 * 1024 ^ index)

abbrev pub unit_name : ℕ → Text
unit_name zero = codes "B"
unit_name (suc zero) = codes "KiB"
unit_name (suc (suc zero)) = codes "MiB"
unit_name (suc (suc (suc zero))) = codes "GiB"
unit_name _ = codes "TiB"

-- A number of tenths with its unit, and a whole number of bytes.
pub sized : ℕ → ℕ → Text
sized n index = decimal (n / 10) ++ (b'.' ∷ decimal (n % 10)) ++ (32 ∷ unit_name index)

pub bytes : ℕ → Text
bytes v = decimal v ++ codes " B"

-- `none` is null, undefined or no number.
unfoldable pub format_bytes : Messages → Option ℕ → Text
unfolding unit_index tenths sized bytes
format_bytes messages none = t messages (codes "unknown") none
format_bytes messages (some v) =
    if unit_index 4 v 0 == 0
    then bytes v
    else sized (tenths v (unit_index 4 v 0)) (unit_index 4 v 0)

-- `Number.isFinite(number) ? number.toLocaleString(MF_LANG) : '0'`
unfoldable pub format_number : Locale → Option ℕ → Text
format_number l none = codes "0"
format_number l (some n) = l.number_string n

-- The seconds of a task: `finishedAt || Date.now()` is `end`, and a difference below 0 counts as 0.
pub duration_text : ℕ → Text
duration_text seconds =
    if ltb seconds 60
    then decimal seconds ++ codes "s"
    else decimal (seconds / 60) ++ (codes "m " ++ (decimal (seconds % 60) ++ codes "s"))

unfoldable pub task_duration : ℕ → ℕ → Text
unfolding duration_text
task_duration started_at end =
    duration_text (if ltb end started_at then 0 else (end - started_at) / 1000)

-- The clock of the countdown.
unfoldable pub clock_text : ℕ → Text
clock_text seconds =
    if seconds / 3600 == 0
    then decimal (seconds % 3600 / 60) ++ (b':' ∷ pad2 (seconds % 60))
    else decimal (seconds / 3600)
      ++ (b':' ∷ (pad2 (seconds % 3600 / 60) ++ (b':' ∷ pad2 (seconds % 60))))

-- formatOffset: an offset in minutes as its sign, true below zero, and its absolute value.
unfoldable pub format_offset : Messages → Option (Bool × ℕ) → Text
format_offset messages none = t messages (codes "none, the share time zone stands in") none
format_offset messages (some (negative, absolute)) =
    codes "UTC"
    ++ ((if negative then codes "−" else codes "+")
        ++ (pad2 (absolute / 60) ++ (b':' ∷ pad2 (absolute % 60))))
