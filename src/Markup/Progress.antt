-- ===== src/Markup/Progress.antt =====
-- app.js, the block of the running event on the automation: automationBlock.
use moment_ferry.Common.{
  ℕ, List, [], ◌∷◌, ◌++◌, Option, none, some, Bool, if◌then◌else◌, ◌==◌, Text, codes, is_some,
  decimal, or_blank, or_else_text,
}
use moment_ferry.I18n.{t}
use moment_ferry.Format.{Locale, format_number}
use moment_ferry.Markup.{Piece, lit, pick, value, word, Part, always, either, said, say, number}
use moment_ferry.Scan.{Automation, ScanState, cycle_running, scan_disabled, percent}

-- Counters that the block shows; each is of the running cycle or of the last one.
pub record Counters : Type 0 where
  pub current_matched : ℕ
  pub current_would_move : ℕ
  pub current_share_name : Option Text

abbrev pub matched_count : Bool → Option Automation → Counters → ℕ
matched_count running none k = 0
matched_count running (some a) k = if running then k.current_matched else a.last_matched

abbrev pub moved_count : Bool → Bool → Option Automation → Counters → ℕ
moved_count dry_run running none k = 0
moved_count dry_run running (some a) k =
    if dry_run
    then (if running then k.current_would_move else a.last_would_move)
    else a.last_executed

abbrev pub processed : Option Automation → ℕ
processed none = 0
processed (some a) = a.current_processed

abbrev pub total : Option Automation → ℕ
total none = 0
total (some a) = a.current_total

abbrev pub phase_name : Option Automation → Text
phase_name none = codes "Preparing"
phase_name (some a) = or_else_text (or_blank a.current_phase) (codes "Preparing")

abbrev pub progress_text : Locale → ℕ → ℕ → Text
progress_text l done all =
    if all == 0
    then said l "starting…"
    else format_number l (some done)
      ++ (codes " / "
          ++ (format_number l (some all)
              ++ (codes " · " ++ (decimal (percent done all) ++ codes "%"))))

abbrev pub progress_bar : Locale → Counters → Option Automation → List Piece
progress_bar l k a =
    lit (
      codes
        "\n    <div class=\"event-progress\">\n      <div class=\"event-progress-head\">\n        <span>")
    ∷ value (t l.messages (phase_name a) none)
    ∷ lit (codes " · ")
    ∷ value (or_else_text (or_blank k.current_share_name) (said l "sources"))
    ∷ lit (codes "</span>\n        <span>")
    ∷ word (progress_text l (processed a) (total a))
    ∷ lit (
        codes
          "</span>\n      </div>\n      <div class=\"progress-track\" role=\"progressbar\" aria-label=\"")
    ∷ value (said l "Current automation cycle")
    ∷ lit (codes "\" aria-valuemin=\"0\" aria-valuemax=\"100\" aria-valuenow=\"")
    ∷ word (decimal (percent (processed a) (total a)))
    ∷ lit (codes "\"><span style=\"width:")
    ∷ word (decimal (percent (processed a) (total a)))
    ∷ lit (codes "%\"></span></div>\n    </div>")
    ∷ []

-- automationBlock below the event: `held` operations are in quarantine.
abbrev pub block :
    Locale → Bool → Bool → Bool → Bool → ℕ → ℕ → ℕ → Counters → Option Automation → List Part
block l dry_run running queued disabled matched moved held k a =
    always (lit (codes "\n    ") ∷ [])
    ∷ either running (progress_bar l k a) []
    ∷ always (
        lit (
          codes
            "\n    <div class=\"stat-grid stat-grid-3\">\n      <div class=\"stat\">\n        <div class=\"stat-value\">")
        ∷ number l matched
        ∷ lit (codes "</div>\n        <div class=\"stat-label\">")
        ∷ word (if running then said l "matched so far" else said l "matched last cycle")
        ∷ lit (
            codes
              "</div>\n      </div>\n      <div class=\"stat\">\n        <div class=\"stat-value acc\">")
        ∷ number l moved
        ∷ lit (codes "</div>\n        <div class=\"stat-label\">")
        ∷ word (
            if dry_run
            then (if running then said l "would move so far" else said l "would move")
            else said l "moved last cycle")
        ∷ lit (
            codes
              "</div>\n      </div>\n      <button class=\"stat\" type=\"button\" data-view=\"ops\">\n        <div class=\"stat-value amb\">")
        ∷ number l held
        ∷ lit (codes "</div>\n        <div class=\"stat-label\">")
        ∷ say l "held"
        ∷ lit (
            codes
              "</div>\n      </button>\n    </div>\n    <div class=\"event-scan-row\">\n      <div>\n        <div class=\"kicker\">")
        ∷ say l "Automation"
        ∷ lit (
            codes
              "</div>\n        <div class=\"event-scan-time\" id=\"nextScanCountdown\"></div>\n      </div>\n      <button class=\"btn\" type=\"button\" data-scan-now ")
        ∷ pick disabled (codes "disabled") []
        ∷ lit (codes ">\n        ")
        ∷ word (
            if running
            then said l "Scanning…"
            else if queued
            then said l "Queued…"
            else said l "Scan now")
        ∷ lit (codes "\n      </button>\n    </div>")
        ∷ [])
    ∷ []

abbrev pub automation_block : Locale → Bool → ℕ → Counters → ScanState → List Part
automation_block l dry_run held k s =
    block l dry_run (cycle_running s.automation_info) (is_some s.scan_requested_at)
      (scan_disabled s) (matched_count (cycle_running s.automation_info) s.automation_info k)
      (moved_count dry_run (cycle_running s.automation_info) s.automation_info k) held k
      s.automation_info
