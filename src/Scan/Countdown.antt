-- ===== src/Scan/Countdown.antt =====
-- app.js, renderNextScanCountdown: the countdown to the next scan, and what it says of the last one.
use moment_ferry.Common.{
  ℕ, ◌+◌, ◌-◌, ◌*◌, ◌/◌, [], ◌∷◌, ◌++◌, Option, none, some, Bool, true, false, not, if◌then◌else◌,
  ◌==◌, Text, codes, is_empty, is_some,
}
use moment_ferry.I18n.{t}
use moment_ferry.Format.{Locale, clock_text, format_number}
use moment_ferry.Scan.{Automation, ScanResult, ScanState, cycle_running}

-- `Math.max(0, Math.ceil((next - Date.now()) / 1000))`
pub seconds_left : ℕ → ℕ → ℕ
seconds_left next now = (next - now + 999) / 1000

-- When the next cycle is due: an interval of 0 counts as 300.
pub next_scan : ScanState → ℕ → ℕ
next_scan s completed =
    completed
    + (if s.reconciliation_interval_seconds == 0 then 300 else s.reconciliation_interval_seconds)
      * 1000

pub error_count : Locale → ℕ → Text
error_count l errors =
    if errors == 0
    then []
    else codes " · "
      ++ t l.messages (if errors == 1 then codes "{{count}} error" else codes "{{count}} errors")
          (some ((codes "count", format_number l (some errors)) ∷ []))

-- The result of a manual scan before the countdown; `time` spells its time of day.
pub result_text : Locale → (ℕ → Text) → Option ScanResult → Text
unfolding error_count
result_text l time none = []
result_text l time (some r) =
    t l.messages
      (codes "Manual scan completed {{time}} · {{matched}} matched · {{wouldMove}} would move")
      (some (
        (codes "time", time r.completed_at)
        ∷ (codes "matched", format_number l (some r.matched))
        ∷ (codes "wouldMove", format_number l (some r.would_move))
        ∷ []))
    ++ (error_count l r.errors ++ codes " · ")

-- The text of renderNextScanCountdown, and whether it is shown as an error.
pub countdown : Locale → (ℕ → Text) → ℕ → ScanState → Text × Bool
unfolding seconds_left next_scan result_text
countdown l time now s =
    if not (is_empty s.scan_schedule_error)
    then (s.scan_schedule_error, true)
    else if cycle_running s.automation_info
    then (t l.messages (codes "Scan in progress") none, false)
    else if is_some s.scan_requested_at
    then (t l.messages (codes "Manual scan queued") none, false)
    else if not s.automation_enabled
    then (t l.messages (codes "Automation is off") none, false)
    else elim (last_completed s.automation_info) [
      | none ↦ (t l.messages (codes "First scan pending") none, false)
      | some at ↦ (
        result_text l time s.manual_scan_result
            ++ (if seconds_left (next_scan s at) now == 0
                then t l.messages (codes "Next scan due now") none
                else t l.messages (codes "Next scan in {{clock}}")
                    (some ((codes "clock", clock_text (seconds_left (next_scan s at) now)) ∷ []))),
        false,
      )
    ]
  where
    last_completed : Option Automation → Option ℕ
    last_completed none = none
    last_completed (some a) = a.last_cycle_completed_at
