-- ===== src/Scan.antt =====
-- src/MomentFerry.Web/wwwroot/app.js: the button that scans now and the loop that waits for the scan
-- (triggerScanNow, monitorAutomationCycle, monitorManualScan). Scan/Countdown is the countdown to the
-- next scan. Instants are milliseconds since the epoch.
-- The asynchronous function is a machine: `phase` says which `await` it stands at. When it is idle no
-- task of its key is running, so runBackgroundTask starts the action at once.
pub mod Countdown
pub mod Progress
pub mod Wait
mod Tests
use moment_ferry.Common.{
  ℕ, zero, suc, ◌+◌, ◌-◌, ◌*◌, ◌/◌, List, [], ◌∷◌, ◌++◌, Option, none, some, Bool, true, false,
  ◌&&◌, ◌||◌, not, if◌then◌else◌, ◌==◌, ltb, leb, Text, codes, is_empty, is_some, decimal, ◌⊎◌, inl,
  inr, or_text,
}
use moment_ferry.I18n.{Messages, t}
use moment_ferry.Format.{Locale, clock_text, format_number}

-- What the status of the API says of the automation; `none` is null or missing.
pub record Automation : Type 0 where
  pub cycle_running : Bool
  pub last_cycle_completed_at : Option ℕ
  pub last_matched : ℕ
  pub last_would_move : ℕ
  pub last_executed : ℕ
  pub last_errors : ℕ
  pub current_phase : Option Text
  pub current_processed : ℕ
  pub current_total : ℕ

pub record StatusReply : Type 0 where
  pub automation : Automation
  pub automation_enabled : Bool
  pub reconciliation_interval_seconds : ℕ

pub record ScanResult : Type 0 where
  pub completed_at : ℕ
  pub matched : ℕ
  pub would_move : ℕ
  pub executed : ℕ
  pub errors : ℕ

pub data Phase : Type 0 where
  idle : Phase
  -- The POST is on its way.
  posting : Phase
  -- The loop waits for a cycle that ends at or after the first time, until the second.
  polling : ℕ → ℕ → Phase

pub record ScanState : Type 0 where
  pub automation_info : Option Automation
  pub automation_enabled : Bool
  pub reconciliation_interval_seconds : ℕ
  pub scan_requested_at : Option ℕ
  pub scan_schedule_error : Text
  pub manual_scan_result : Option ScanResult
  pub phase : Phase

-- `automationInfo?.cycleRunning`
abbrev pub cycle_running : Option Automation → Bool
cycle_running none = false
cycle_running (some a) = a.cycle_running

-- The guard of triggerScanNow, which is also why the button is disabled (automationBlock).
abbrev pub scan_disabled : ScanState → Bool
scan_disabled s =
    cycle_running s.automation_info || (is_some s.scan_requested_at || not s.automation_enabled)

-- triggerScanNow, up to the POST.
pub trigger_scan_now : ℕ → ScanState → ScanState
trigger_scan_now now s = if scan_disabled s then s else record s {
  scan_schedule_error = [];
  manual_scan_result = none;
  scan_requested_at = some now;
  phase = posting;
}

-- The `catch` of triggerScanNow.
pub scan_failed : Messages → Text → ScanState → ScanState
scan_failed messages message s = record s {
  scan_requested_at = none;
  scan_schedule_error =
      t messages (codes "Could not start scan · {{error}}") (some ((codes "error", message) ∷ []));
  phase = idle;
}

-- `Date.now() + 30 * 60 * 1000`
abbrev pub wait_limit : ℕ
wait_limit = 1800000

-- The answer to the POST, or the message of its failure, and the time at which the loop begins.
pub posted : Messages → Text ⊎ ℕ → ℕ → ScanState → ScanState
unfolding scan_failed
posted messages (inl message) now s = scan_failed messages message s
posted messages (inr requested) now s = record s {
  scan_requested_at = some requested;
  phase = polling requested (now + wait_limit);
}

-- `new Date(lastCycleCompletedAt || 0)`
abbrev pub completed_at : Automation → ℕ
completed_at a = elim a.last_cycle_completed_at [ none ↦ 0 | some at ↦ at ]

abbrev pub apply_status : StatusReply → ScanState → ScanState
apply_status r s = record s {
  automation_info = some r.automation;
  automation_enabled = r.automation_enabled;
  reconciliation_interval_seconds = r.reconciliation_interval_seconds;
}

pub scan_result : Automation → ScanResult
scan_result a = record {
  completed_at = completed_at a;
  matched = a.last_matched;
  would_move = a.last_would_move;
  executed = a.last_executed;
  errors = a.last_errors;
}

abbrev pub is_complete : ℕ → Automation → Bool
is_complete requested a = not a.cycle_running && leb requested (completed_at a)

-- What an answer, or the message of a failure, makes of a wait for `requested`.
pub answered : Messages → ℕ → Text ⊎ StatusReply → ScanState → ScanState
unfolding scan_failed scan_result
answered messages requested (inl message) s = scan_failed messages message s
answered messages requested (inr r) s =
    if is_complete requested r.automation
    then record (apply_status r s) {
      manual_scan_result = some (scan_result r.automation);
      scan_requested_at = none;
      scan_schedule_error = [];
      phase = idle;
    }
    else apply_status r s

-- One round of the loop that begins at `now`: the request is made before the deadline only.
pub round_at : Messages → ℕ → Text ⊎ StatusReply → Phase → ScanState → ScanState
unfolding scan_failed answered
round_at messages now reply idle s = s
round_at messages now reply posting s = s
round_at messages now reply (polling requested deadline) s =
    if ltb now deadline
    then answered messages requested reply s
    else scan_failed messages (t messages (codes "Timed out waiting for the cycle to finish") none)
        s

pub poll : Messages → ℕ → Text ⊎ StatusReply → ScanState → ScanState
unfolding round_at
poll messages now reply s = round_at messages now reply s.phase s

-- loadAutomationStatus (settings.js) refreshes what the loop also writes.
pub load_automation_status : Automation → ScanState → ScanState
load_automation_status a s = record s { automation_info = some a }

-- `Math.min(100, Math.round(processed / total * 100))`
pub percent : ℕ → ℕ → ℕ
percent processed total =
    let rounded = (200 * processed + total) / (2 * total) in
    if total == 0 then 0 else if leb 100 rounded then 100 else rounded

-- The detail that the loop writes to its task.
pub task_detail : Locale → Text → Automation → Text
unfolding percent
task_detail l fallback a =
    if a.cycle_running
    then t l.messages (or_text a.current_phase fallback) none
      ++ (codes " · "
          ++ (if a.current_total == 0
              then t l.messages (codes "starting…") none
              else format_number l (some a.current_processed)
                ++ (codes " / "
                    ++ (format_number l (some a.current_total)
                        ++ (codes " · "
                            ++ (decimal (percent a.current_processed a.current_total)
                                ++ codes "%"))))))
    else t l.messages (codes "Queued") none
