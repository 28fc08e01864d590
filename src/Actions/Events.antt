-- ===== src/Actions/Events.antt =====
-- app.js, the buttons of an event: startEvent, stopEvent, the toggle that chooses between them,
-- backfillEvent, routeEventAgain, renameRoutedFiles and deleteEvent.
use moment_ferry.Common.{
  ℕ, List, [], ◌∷◌, ◌++◌, Option, none, some, Bool, if◌then◌else◌, ◌==◌, Text, codes, String,
  flat_map,
}
use moment_ferry.Model.{MediaEvent, is_active, is_copy}
use moment_ferry.I18n.{t}
use moment_ferry.Format.{Locale, format_number, format_date}
use moment_ferry.Analysis.{find_event}
use moment_ferry.Markup.{said}
use moment_ferry.Actions.{
  with_found, ConsoleState, ApiRequest, post, Reply, event_list, operation_list, quarantine_list,
  request, automation_cycle, reload, alert_box, Program, done, ◌>>=◌, ◌>>◌, await, run_task, say,
  if_confirmed, or_alert,
}
use moment_ferry.Actions.Shares.{a_delete, named}

abbrev pub a_post : List Text → ApiRequest
a_post path = record { verb = post; path = path; query = []; body = [] }

abbrev pub start_event : Text → Program (Unit {0})
start_event id = or_alert (do
  r ← await (request (a_post (codes "events" ∷ id ∷ codes "start" ∷ [])))
  s ← await (reload (event_list ∷ []))
  done tt)

abbrev pub stop_event : Text → Program (Unit {0})
stop_event id = or_alert (do
  r ← await (request (a_post (codes "events" ∷ id ∷ codes "stop" ∷ [])))
  s ← await (reload (event_list ∷ []))
  done tt)

-- The click on `data-event-toggle`.
unfoldable pub toggle_event : ConsoleState → Text → Program (Unit {0})
toggle_event c id =
    with_found (find_event id c.events)
      λ event. if is_active event.status then stop_event id else start_event id

abbrev pub and_then : Text → Text → Text
and_then a b = a ++ (10 ∷ 10 ∷ b)

-- `t(n === 1 ? '{{count}} error' : '{{count}} errors', …)` after a dot, where there are errors.
abbrev pub errors_text : Locale → Option ℕ → Text
errors_text l none = []
errors_text l (some n) =
    if n == 0
    then []
    else codes " · "
      ++ t l.messages (if n == 1 then codes "{{count}} error" else codes "{{count}} errors")
          (some ((codes "count", format_number l (some n)) ∷ []))

-- `t(key, { count })`
abbrev pub count_text : Locale → String → Option ℕ → Text
count_text l key n = t l.messages (codes key) (some ((codes "count", format_number l n) ∷ []))

abbrev pub backfill_question : Locale → MediaEvent → Text
backfill_question l e = and_then (named l "Sort existing media into “{{name}}”?" e.name) (
    and_then
      (t l.messages
        (codes
          "MomentFerry will scan every source share of this event, read capture metadata for files it has not indexed yet, and {{mode}} everything captured in {{range}}.")
        (some (
          (codes "mode", if is_copy e.operation_mode then said l "copy" else said l "safe-move")
          ∷ (
            codes "range",
            format_date l (some e.start_at)
                ++ (codes " → " ++ elim e.end_at [
                  | none ↦ said l "still open"
                  | some at ↦ format_date l (some at)
                ]),
          )
          ∷ [])))
      (said l
        "Media matching other events is left alone. On a large share the metadata pass can take a while."))

abbrev pub backfill_result : Locale → Bool → MediaEvent → Reply → Text
backfill_result l dry_run e summary =
    and_then (named l "Backfill finished for “{{name}}”." e.name) (
      count_text l "{{count}} matched" (summary.number (codes "matched"))
      ++ (codes " · "
          ++ ((if dry_run
                then count_text l "{{count}} would be routed (Dry Run)"
                    (summary.number (codes "wouldMove"))
                else count_text l "{{count}} routed" (summary.number (codes "executed")))
              ++ errors_text l (summary.number (codes "errors")))))

unfoldable pub backfill_event : ConsoleState → Text → Program (Unit {0})
backfill_event c id = with_found (find_event id c.events) λ event.
    if_confirmed (backfill_question c.locale event) (
      or_alert (do
        result ←
            run_task
              (record {
                key = codes "backfill-" ++ id;
                label = said c.locale "Backfill" ++ (codes ": " ++ event.name);
                view = codes "events";
              })
              (do
                started ← await (request (a_post (codes "events" ∷ id ∷ codes "backfill" ∷ [])))
                summary ← await (
                    automation_cycle (started.number (codes "requestedAt"))
                      (codes "backfill-" ++ id) (said c.locale "Backfill"))
                say alert_box (backfill_result c.locale c.dry_run event summary)
                done summary)
        s ← await (reload (event_list ∷ []))
        done tt))

abbrev pub again_question : Locale → MediaEvent → Text
again_question l e = and_then (named l "Route everything in “{{name}}” again?" e.name) (
    and_then
      (said l
        "Files this event already finished are normally never routed a second time. This clears that mark and runs a full pass under the current naming rules.")
      (said l
        "Copies already at the destination are left where they are. A file whose destination copy still exists is held for your decision instead of being moved again."))

abbrev pub again_result : Locale → MediaEvent → Reply → Reply → Text
again_result l e started summary =
    and_then (named l "Route again finished for “{{name}}”." e.name) (
      count_text l "{{count}} earlier operations cleared" (started.number (codes "superseded"))
      ++ (codes " · "
          ++ (count_text l "{{count}} routed" (summary.number (codes "executed"))
              ++ errors_text l (summary.number (codes "errors")))))

unfoldable pub route_event_again : ConsoleState → Text → Program (Unit {0})
route_event_again c id = with_found (find_event id c.events) λ event.
    if_confirmed (again_question c.locale event) (
      or_alert (do
        result ←
            run_task
              (record {
                key = codes "route-event-again-" ++ id;
                label = said c.locale "Route again" ++ (codes ": " ++ event.name);
                view = codes "events";
              })
              (do
                started ← await (request (a_post (codes "events" ∷ id ∷ codes "route-again" ∷ [])))
                summary ← await (
                    automation_cycle (started.number (codes "requestedAt"))
                      (codes "route-event-again-" ++ id) (said c.locale "Route again"))
                say alert_box (again_result c.locale event started summary)
                done summary)
        s ← await (reload (event_list ∷ quarantine_list ∷ []))
        done tt))

abbrev pub rename_question : Locale → MediaEvent → Text
rename_question l e =
    and_then
      (named l "Apply the current naming rules to the files “{{name}}” already stored?" e.name)
      (and_then
        (said l
          "MomentFerry names files on the way to the destination, so a preset or camera mapping added later never reached what was already stored. Route again cannot reach them either once Safe Move released their sources.")
        (said l
          "Only a file whose new name is free is renamed, and only while its bytes still match the checksum on record. Nothing is overwritten, and the operation history follows each file to its new name."))

-- One line for each reason.
abbrev pub reason_line : Locale → Text × ℕ → Text
reason_line l (reason, count) =
    10 ∷ (format_number l (some count) ++ (codes " × " ++ t l.messages reason none))

abbrev pub rename_result : Locale → MediaEvent → Reply → Text
rename_result l e r = and_then (named l "Renaming finished for “{{name}}”." e.name) (
    count_text l "{{count}} examined" (r.number (codes "examined"))
    ++ (codes " · "
        ++ ((if r.flag (codes "dryRun")
              then count_text l "{{count}} would be renamed (Dry Run)" (r.number (codes "renamed"))
              else count_text l "{{count}} renamed" (r.number (codes "renamed")))
            ++ (codes " · "
                ++ (count_text l "{{count}} already correct" (r.number (codes "unchanged"))
                    ++ (codes " · "
                        ++ (count_text l "{{count}} skipped" (r.number (codes "skipped"))
                            ++ (errors_text l (r.number (codes "errors"))
                                ++ flat_map (reason_line l) r.reasons))))))))

unfoldable pub rename_routed_files : ConsoleState → Text → Program (Unit {0})
rename_routed_files c id = with_found (find_event id c.events) λ event.
    if_confirmed (rename_question c.locale event) (
      or_alert (do
        result ←
            run_task
              (record {
                key = codes "rename-routed-" ++ id;
                label = said c.locale "Rename stored files" ++ (codes ": " ++ event.name);
                view = codes "events";
              })
              (await (request (a_post (codes "events" ∷ id ∷ codes "rename-routed" ∷ []))))
        say alert_box (rename_result c.locale event result)
        s ← await (reload (operation_list ∷ []))
        done tt))

unfoldable pub delete_event : ConsoleState → Text → Program (Unit {0})
delete_event c id = with_found (find_event id c.events) λ event.
    if_confirmed (named c.locale "Remove event “{{name}}”?" event.name) (
      or_alert (do
        r ← await (request (a_delete (codes "events" ∷ id ∷ [])))
        s ← await (reload (event_list ∷ []))
        done tt))
