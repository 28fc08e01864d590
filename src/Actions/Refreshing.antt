-- ===== src/Actions/Refreshing.antt =====
-- app.js, the button that scans now (triggerScanNow, with the request and the wait; the state that it
-- changes is Scan's) and the buttons that load a list again; settings.js, the sign-out.
use moment_ferry.Common.{[], ◌∷◌, not, ◌||◌, if◌then◌else◌, Text, codes}
use moment_ferry.Markup.{said}
use moment_ferry.Actions.{
  ConsoleState, request, automation_cycle, maintenance_message, scan_schedule, address, failing,
  Program, done, tell, ◌>>=◌, ◌>>◌, catch, await, run_task, say,
}
use moment_ferry.Actions.Shares.{a_get}
use moment_ferry.Actions.Events.{a_post}

-- monitorManualScan takes the error of the schedule away.
abbrev pub scan_asked : ConsoleState → Program (Unit {0})
scan_asked c =
    say scan_schedule []
    >> catch
        (do
          r ←
              run_task
                (record {
                  key = codes "manual-scan";
                  label = said c.locale "Manual scan";
                  view = codes "overview";
                })
                (do
                  result ← await (request (a_post (codes "automation" ∷ codes "run" ∷ [])))
                  summary ← await (
                      automation_cycle (result.number (codes "requestedAt")) (codes "manual-scan")
                        (said c.locale "Scanning"))
                  say scan_schedule []
                  done summary)
          done tt)
        (λ m. tell scan_schedule (failing "Could not start scan · {{error}}" m) (done tt))

unfoldable pub trigger_scan_now : ConsoleState → Program (Unit {0})
trigger_scan_now c =
    if c.cycle_running || (c.scan_requested || not c.automation_enabled)
    then done tt
    else scan_asked c

unfoldable pub refresh_operations : Program (Unit {0})
refresh_operations = do
  operations ← await (request (a_get (codes "operations" ∷ []) ((codes "limit", codes "50") ∷ [])))
  done tt

-- With the value of the select of levels.
unfoldable pub refresh_logs : Text → Program (Unit {0})
refresh_logs level = do
  entries ← await (
      request
        (a_get (codes "logs" ∷ []) ((codes "limit", codes "200") ∷ (codes "level", level) ∷ [])))
  done tt

unfoldable pub refresh_quarantine : Program (Unit {0})
refresh_quarantine = do
  held ← await (request (a_get (codes "quarantine" ∷ []) ((codes "limit", codes "200") ∷ [])))
  done tt

-- The button of maintenance shows what its refresh throws.
unfoldable pub refresh_maintenance : Program (Unit {0})
refresh_maintenance =
    catch
      (do
        info ← await (request (a_get (codes "maintenance" ∷ [] ∷ []) []))
        settings ← await (request (a_get (codes "settings" ∷ []) []))
        done tt)
      (say maintenance_message)

unfoldable pub logout : Program (Unit {0})
logout = do
  r ← await (request (a_post (codes "auth" ∷ codes "logout" ∷ [])))
  say address (codes "/login.html")
