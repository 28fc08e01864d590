-- ===== src/Actions/Tests.antt =====
-- The buttons of the console: runs at concrete inputs.
use moment_ferry.Common.{List, [], ◌∷◌, true, false, codes, decimal, ◌≡◌, refl, inr}
use moment_ferry.Model.Samples.{kiel}
use moment_ferry.Actions.{
  ConsoleState, began, request, begin, scan_schedule, called, asked, failed, told, alert_box, text,
  agree, answer, run, Input,
}
use moment_ferry.Actions.Shares.{a_delete, named}
use moment_ferry.Markup.{said}
use moment_ferry.Actions.Events.{a_post, delete_event}
use moment_ferry.Actions.Refreshing.{trigger_scan_now, logout}
use moment_ferry.Actions.Handlers.{Button, handler}

abbrev console : ConsoleState
console = record {
  locale = record { messages = []; date_string = decimal; number_string = decimal };
  dry_run = true;
  automation_enabled = true;
  cycle_running = false;
  scan_requested = false;
  shares = [];
  groups = [];
  events = kiel ∷ [];
  operations = [];
  rename_presets = [];
}

abbrev refused : List Input
refused = agree true ∷ answer (inr (codes "503")) ∷ []

-- The user agrees, and the server refuses.
refused_removal :
    run (handler console (Button.event_removal kiel.id)) refused
    ≡ asked (named console.locale "Remove event “{{name}}”?" kiel.name) true
      ∷ called (request (a_delete (codes "events" ∷ kiel.id ∷ [])))
      ∷ failed (codes "503")
      ∷ told alert_box (text (codes "503"))
      ∷ []
unfolding run handler delete_event
refused_removal = refl

-- Scan now asks nothing before it sends.
scan_now_unasked :
    run (handler console Button.scan_now) (begin ∷ [])
    ≡ told scan_schedule (text [])
      ∷ began (record {
        key = codes "manual-scan";
        label = said console.locale "Manual scan";
        view = codes "overview";
      })
      ∷ called (request (a_post (codes "automation" ∷ codes "run" ∷ [])))
      ∷ []
unfolding run handler trigger_scan_now
scan_now_unasked = refl

-- A sign-out that fails shows nothing.
sign_out_unreported :
    run (handler console Button.sign_out) (answer (inr (codes "503")) ∷ [])
    ≡ called (request (a_post (codes "auth" ∷ codes "logout" ∷ []))) ∷ failed (codes "503") ∷ []
unfolding run handler logout
sign_out_unreported = refl
